-- ===== src/Patchram/Always/Reads.antt =====
-- The reads of brcm_patchram_plus/brcm_patchram_plus.c stay inside of its buffer.
use platform_system_bluetoot.Prelude.{
  ℕ, zero, suc, ◌+◌, ◌-◌, ◌≤◌, ◌<◌, ◌∙◌, List, [], ◌∷◌, ◌++◌, arith, Bytes, length, get_or, take,
  splice, min, length-splice,
}
use platform_system_bluetoot.Libc.Hex.{AreBytes}
use platform_system_bluetoot.Patchram.Globals.{hci_reset}
use platform_system_bluetoot.Patchram.Device.{
  Stop, blocked, fault, out_of_rounds, Arrival, gets, fails, timer, sent, alarm, Device, Run, Cmd,
  done, stops,
}
use platform_system_bluetoot.Patchram.Event.{expired, receive, read_loop, read_event}
use platform_system_bluetoot.Patchram.Procedures.{
  read_two_from, read_two, readable, read_hcd, send_record,
}
use platform_system_bluetoot.Patchram.Readable.{readable_bounds}
use platform_system_bluetoot.Patchram.WellFormed.{AreBytes-splice}
use platform_system_bluetoot.Patchram.Always.{
  Always, Always-bind, AreBytes-take, AreBytes-drop, Data, receive-Data,
}
use platform_system_bluetoot.Patchram.Faults.{Unreadable}

-- No read of the port fails.
abbrev pub NoFails : List Arrival → Type 0
NoFails [] = Unit
NoFails (gets _ ∷ queue) = NoFails queue
NoFails (fails ∷ queue) = ⊥
NoFails (timer ∷ queue) = NoFails queue

-- A run that stops waits for the chip, or reads the firmware file again and again where that
-- fails. It has not accessed anything outside of the buffer.
abbrev pub Waits : Stop → Device → Type 0
Waits blocked d = Unit
Waits fault d = ⊥
Waits out_of_rounds d = Unreadable d

abbrev pub Kept : Device → Type 0
Kept d = Data d × NoFails d.arrivals

-- The run stays within the arrays, and keeps this if it ends.
abbrev pub InBounds : {A : Type 0} → Run A → Type 0
InBounds r = Always Kept Waits r

-- The index behind what is read is in bounds.
abbrev Within : ℕ → Run ℕ → Type 0
Within top (done n d) = (n ≤ top) × Kept d
Within top (stops why d) = Waits why d

read_loop-Within :
    (queue : List Arrival) (i len top : ℕ) (d : Device)
    → NoFails queue
    → Data d
    → i + len ≤ top
    → top ≤ 1024
    → Within top (read_loop queue i len d)
unfolding read_loop expired
read_loop-Within queue i zero top d calm s fits small = (omega arith, (s, calm))
read_loop-Within [] i (suc len) top d calm s fits small =
    let (rx, hcd, buffer, size) = s in
    ground (arith, size, receive-Data i (suc len) (record d { arrivals = [] }) s)
read_loop-Within (gets c ∷ queue) i (suc len) top d calm s fits small =
    let (rx, hcd, buffer, size) = s in
    let n = min (suc len) (min (c + 1) (length d.rx)) in
    let d1 = receive i n (record d { arrivals = queue }) in
    let s1 : Data d1 = receive-Data i n (record d { arrivals = queue }) s in
    let below : i + n + (suc len - n) ≤ top = omega arith in
    ground
      (arith, size, s1, read_loop-Within queue (i + n) (suc len - n) top d1 calm s1 below small)
read_loop-Within (fails ∷ queue) i (suc len) top d calm s fits small = absurd calm
read_loop-Within (timer ∷ queue) i (suc len) top d calm s fits small =
    let later = record d { log = d.log ++ sent hci_reset ∷ [] ++ alarm 4 ∷ [] } in
    ground (
      arith,
      read_loop-Within queue i (suc len) top later calm s fits small,
      read_loop-Within queue i (suc len) top d calm s fits small,
    )

get_or-byte : (buffer : Bytes) (i : ℕ) → AreBytes buffer → get_or buffer i 0 < 256
get_or-byte [] i small = omega arith
get_or-byte (x ∷ xs) zero (h, small) = h
get_or-byte (x ∷ xs) (suc i) (h, small) = get_or-byte xs i small

Within-bind :
    (top : ℕ) (r : Run ℕ) (f : ℕ → Cmd ℕ)
    → Within top r
    → ((n : ℕ) (d : Device) → n ≤ top → Kept d → Within 1024 (f n d))
    → Within 1024 (elim r [ done a d ↦ f a d | stops why d ↦ stops why d ])
Within-bind top (done n d) f (below, kept) next = next n d below kept
Within-bind top (stops why d) f h next = h

Within-Always : (top : ℕ) (r : Run ℕ) → Within top r → InBounds r
Within-Always top (done n d) (below, kept) = kept
Within-Always top (stops why d) h = h

pub read_event-Kept : (d : Device) → Kept d → InBounds (read_event d)
unfolding read_event
read_event-Kept d (s, calm) = Within-Always 1024 _ (
    Within-bind 3 (read_loop d.arrivals 0 3 d) _
      (read_loop-Within d.arrivals 0 3 3 d calm s (omega arith) (omega arith))
      λ i d1 below kept.
        let ((rx, hcd, buffer, size), calm1) = kept in
        let len : ℕ = get_or d1.buffer 2 0 in
        read_loop-Within d1.arrivals i len 1024 d1 calm1 kept.0
          (omega (arith, get_or-byte d1.buffer 2 buffer)) (omega arith))

read_two_from-Kept :
    (queue : List Arrival) (d : Device)
    → Data d
    → NoFails d.arrivals
    → NoFails queue
    → InBounds (read_two_from queue d)
unfolding read_two_from
read_two_from-Kept [] d s calm rest = ground (arith, receive-Data 0 (min 2 (length d.rx)) d s)
read_two_from-Kept (gets c ∷ queue) d s calm rest =
    ground
      (arith, receive-Data 0 (min 2 (min (c + 1) (length d.rx))) (record d { arrivals = queue }) s)
read_two_from-Kept (fails ∷ queue) d s calm rest = absurd rest
read_two_from-Kept (timer ∷ queue) d s calm rest = read_two_from-Kept queue d s calm rest

pub read_two-Kept : (d : Device) → Kept d → InBounds (read_two d)
unfolding read_two
read_two-Kept d (s, calm) = read_two_from-Kept d.arrivals d s calm calm

pub read_hcd-Kept : (i len : ℕ) (d : Device) → i + len ≤ 1024 → Kept d → InBounds (read_hcd i len d)
unfolding read_hcd
read_hcd-Kept i len d fits ((rx, hcd, buffer, size), calm) =
    let n = readable d.hcd_fails len d.hcd in
    ground (
      arith,
      size,
      readable_bounds d.hcd_fails len d.hcd,
      AreBytes-drop n d.hcd hcd,
      AreBytes-splice d.buffer i (take n d.hcd) buffer (AreBytes-take n d.hcd hcd),
      length-splice d.buffer i (take n d.hcd),
    )

pub send_record-Kept : (d : Device) → Kept d → InBounds (send_record d)
unfolding send_record
send_record-Kept d ((rx, hcd, buffer, size), calm) =
    let filled = record d { buffer = splice d.buffer 0 (0x01 ∷ []) } in
    let len : ℕ = get_or filled.buffer 3 0 in
    let small = AreBytes-splice d.buffer 0 (0x01 ∷ []) buffer (omega arith, tt) in
    let held : Data filled = (rx, hcd, small, length-splice d.buffer 0 (0x01 ∷ []) ∙ size) in
    Always-bind Kept Waits (read_hcd 4 len filled) _
      (read_hcd-Kept 4 len filled (omega (arith, get_or-byte filled.buffer 3 small)) (held, calm))
      λ _ d1 kept.
        let d2 = record d1 { log = d1.log ++ sent (take (len + 4) d1.buffer) ∷ [] } in
        Always-bind Kept Waits (read_event d2) _ (read_event-Kept d2 kept) (λ _ _ kept2. kept2)
