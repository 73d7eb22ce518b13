-- ===== src/Patchram/Always.antt =====
-- What holds of brcm_patchram_plus/brcm_patchram_plus.c in every run, also in one that does not end.
pub mod Sends
pub mod Steps
pub mod Outcome
pub mod Reads
pub mod Bounds
use platform_system_bluetoot.Prelude.{
  ℕ, zero, suc, ◌+◌, ◌-◌, ◌<◌, ◌≤◌, ◌≡◌, refl, ap, sym, ◌∙◌, Bool, true, false, List, [], ◌∷◌, ◌++◌,
  arith, Bytes, ℤ, length, get_or, take, drop, splice, min, length-splice, inl, inr, Bool-cases,
}
use platform_system_bluetoot.Libc.Hex.{AreBytes}
use platform_system_bluetoot.Patchram.Globals.{hci_reset}
use platform_system_bluetoot.Patchram.Device.{
  Stop, Arrival, gets, fails, timer, Output, sent, alarm, Device, Run, Cmd, done, stops, when,
  ◌>>=◌, ◌>>◌,
}
use platform_system_bluetoot.Patchram.Event.{expired, receive, read_loop, read_event}
use platform_system_bluetoot.Patchram.Procedures.{
  read_two_from, read_two, readable, read_hcd, download_all,
}
use platform_system_bluetoot.Patchram.Packets.{
  IsPacket, AllPackets, AllPackets-append, reset-IsPacket,
}
use platform_system_bluetoot.Patchram.WellFormed.{AreBytes-splice}

-- If a run ends, `P` holds of the device, and if it stops, `S` holds of the device and of why.
abbrev pub Always : {A : Type 0} → (Device → Type 0) → (Stop → Device → Type 0) → Run A → Type 0
Always P S (done _ d) = P d
Always P S (stops why d) = S why d

pub Always-bind :
    {A B : Type 0} (P : Device → Type 0) (S : Stop → Device → Type 0) (r : Run A) (f : A → Cmd B)
    → Always P S r
    → ((a : A) (d : Device) → P d → Always P S (f a d))
    → Always P S (elim r [ done a d ↦ f a d | stops why d ↦ stops why d ])
Always-bind P S (done a d) f h next = next a d h
Always-bind P S (stops _ _) f h next = h

pub when-Always :
    (P : Device → Type 0) (S : Stop → Device → Type 0) (b : Bool) (m : Cmd (Unit {0})) (d : Device)
    → P d
    → Always P S (m d)
    → Always P S (when b m d)
when-Always P S true m d p keeps = keeps
when-Always P S false m d p keeps = p

-- What is to be known of the calls for that to hold of every run of `main`.
pub record Rules (P : Device → Type 0) (S : Stop → Device → Type 0) : Type 0 where
  pub outputs :
      (os : List Output) (set : Bool) (d : Device)
      → AllPackets os
      → P d
      → P (record d { log = d.log ++ os; alarm_set = set })
  pub reads_event : (d : Device) → P d → Always P S (read_event d)
  pub reads_two : (d : Device) → P d → Always P S (read_two d)
  pub downloads : (d : Device) → P d → Always P S (download_all d)

pub AreBytes-take : (n : ℕ) (xs : Bytes) → AreBytes xs → AreBytes (take n xs)
AreBytes-take zero xs small = tt
AreBytes-take (suc n) [] small = tt
AreBytes-take (suc n) (x ∷ xs) (h, small) = (h, AreBytes-take n xs small)

pub AreBytes-drop : (n : ℕ) (xs : Bytes) → AreBytes xs → AreBytes (drop n xs)
AreBytes-drop zero xs small = small
AreBytes-drop (suc n) [] small = tt
AreBytes-drop (suc n) (x ∷ xs) (h, small) = AreBytes-drop n xs small

-- The chip, the file and the buffer are of bytes.
abbrev pub Data : Device → Type 0
Data d = AreBytes d.rx × AreBytes d.hcd × AreBytes d.buffer × (length d.buffer ≡ 1024)

pub receive-Data : (i n : ℕ) (d : Device) → Data d → Data (receive i n d)
unfolding receive
receive-Data i n d (rx, hcd, buffer, size) = (
  AreBytes-drop n d.rx rx,
  hcd,
  AreBytes-splice d.buffer i (take n d.rx) buffer (AreBytes-take n d.rx rx),
  length-splice d.buffer i (take n d.rx) ∙ size,
)

-- And all that was sent is packets.
abbrev pub Sound : Device → Type 0
Sound d = AllPackets d.log × Data d

receive-Sound : (i n : ℕ) (d : Device) → Sound d → Sound (receive i n d)
unfolding receive
receive-Sound i n d (log, held) = (log, receive-Data i n d held)

-- It was so, and stays so if the run stops.
abbrev pub AlwaysSound : {A : Type 0} → Run A → Type 0
AlwaysSound r = Always Sound (λ _. Sound) r

-- Something was done that sends a packet or nothing.
pub output-Sound :
    (os : List Output) (set : Bool) (d : Device)
    → AllPackets os
    → Sound d
    → Sound (record d { log = d.log ++ os; alarm_set = set })
output-Sound os set d all (log, (rx, hcd, buffer, size)) =
    (AllPackets-append d.log os log all, (rx, hcd, buffer, size))

read_loop-Sound :
    (queue : List Arrival) (i len : ℕ) (d : Device)
    → Sound d
    → AlwaysSound (read_loop queue i len d)
unfolding read_loop
read_loop-Sound queue i zero d s = s
read_loop-Sound [] i (suc len) d s =
    ground (arith, receive-Sound i (suc len) (record d { arrivals = [] }) s)
read_loop-Sound (gets c ∷ queue) i (suc len) d s =
    let n = min (suc len) (min (c + 1) (length d.rx)) in
    let s' = receive-Sound i n (record d { arrivals = queue }) s in
    ground (
      arith,
      s',
      read_loop-Sound queue (i + n) (suc len - n) (receive i n (record d { arrivals = queue })) s',
    )
read_loop-Sound (fails ∷ queue) zero (suc len) d s = s
read_loop-Sound (fails ∷ queue) (suc i) (suc len) d s = read_loop-Sound queue i (suc (suc len)) d s
read_loop-Sound (timer ∷ queue) i (suc len) d s =
    let later = record d { log = d.log ++ sent hci_reset ∷ [] ++ alarm 4 ∷ [] } in
    let asked = output-Sound (sent hci_reset ∷ []) d.alarm_set d (reset-IsPacket, tt) s in
    let s' : Sound later =
      output-Sound (alarm 4 ∷ []) d.alarm_set (record d { log = d.log ++ sent hci_reset ∷ [] })
        (tt, tt) asked in
    ground
      (arith, read_loop-Sound queue i (suc len) later s', read_loop-Sound queue i (suc len) d s)

pub read_event-Sound : (d : Device) → Sound d → AlwaysSound (read_event d)
unfolding read_event
read_event-Sound d s =
    Always-bind Sound (λ _. Sound) (read_loop d.arrivals 0 3 d) _
      (read_loop-Sound d.arrivals 0 3 d s)
      (λ i d1. read_loop-Sound d1.arrivals i (get_or d1.buffer 2 0) d1)

read_two_from-Sound :
    (queue : List Arrival) (d : Device) → Sound d → AlwaysSound (read_two_from queue d)
unfolding read_two_from
read_two_from-Sound [] d s = ground (arith, receive-Sound 0 (min 2 (length d.rx)) d s)
read_two_from-Sound (gets c ∷ queue) d s =
    ground
      (arith, receive-Sound 0 (min 2 (min (c + 1) (length d.rx))) (record d { arrivals = queue }) s)
read_two_from-Sound (fails ∷ queue) d s = s
read_two_from-Sound (timer ∷ queue) d s = read_two_from-Sound queue d s

pub read_two-Sound : (d : Device) → Sound d → AlwaysSound (read_two d)
unfolding read_two
read_two-Sound d s = read_two_from-Sound d.arrivals d s

-- Bytes of the file are read, or none.
pub read_hcd-Sound : (i len : ℕ) (d : Device) → Sound d → AlwaysSound (read_hcd i len d)
unfolding read_hcd
read_hcd-Sound i len d (log, (rx, hcd, buffer, size)) =
    let n = readable d.hcd_fails len d.hcd in
    ground (
      arith,
      AreBytes-drop n d.hcd hcd,
      AreBytes-splice d.buffer i (take n d.hcd) buffer (AreBytes-take n d.hcd hcd),
      length-splice d.buffer i (take n d.hcd),
    )
