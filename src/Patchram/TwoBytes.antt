-- ===== src/Patchram/TwoBytes.antt =====
-- `proc_patchram` of brcm_patchram_plus/brcm_patchram_plus.c for the chips that send two bytes once
-- the minidriver runs.
pub mod Outcome
use platform_system_bluetoot.Prelude.{
  ℕ, zero, suc, ◌+◌, ◌-◌, ◌≡◌, refl, ap, subst, ◌∙◌, true, false, List, [], ◌∷◌, ◌++◌, arith, Bytes,
  length, min, take, get_or, length-splice, append_assoc,
}
use platform_system_bluetoot.Patchram.Globals.{Globals, hci_reset, hci_download_minidriver}
use platform_system_bluetoot.Patchram.Device.{
  Arrival, gets, fails, timer, Output, sent, alarm, Device, Returns-bind, Returns-and, IfDone,
  IfDone-bind, ◌>>◌,
}
use platform_system_bluetoot.Patchram.Event.{expired, receive, read_loop, read_event}
use platform_system_bluetoot.Patchram.Event.Framing.{Smooth}
use platform_system_bluetoot.Patchram.Procedures.{read_two_from, read_two, proc_patchram, exchange}
use platform_system_bluetoot.Patchram.Ready.{Reply, Ready, Ends, wire, AllShort, exchange-Ready}
use platform_system_bluetoot.Patchram.Download.{Record, hcd_file, AllFit}
use platform_system_bluetoot.Patchram.Script.{
  patchram_outputs, firmware_outputs, send_firmware, Does-send_firmware,
}

-- No read of the port has to do with one byte.
abbrev pub InPairs : List Arrival → Type 0
InPairs [] = Unit
InPairs (gets zero ∷ queue) = ⊥
InPairs (gets (suc c) ∷ queue) = InPairs queue
InPairs (fails ∷ queue) = InPairs queue
InPairs (timer ∷ queue) = InPairs queue

abbrev pub Paired : Device → Type 0
Paired d = InPairs d.arrivals

read_loop-Paired :
    (queue : List Arrival) (i len : ℕ) (d : Device)
    → InPairs queue
    → IfDone Paired (read_loop queue i len d)
unfolding read_loop receive expired
read_loop-Paired queue i zero d pairs = pairs
read_loop-Paired [] i (suc len) d pairs = ground arith
read_loop-Paired (gets zero ∷ queue) i (suc len) d pairs = absurd pairs
read_loop-Paired (gets (suc c) ∷ queue) i (suc len) d pairs =
    let n = min (suc len) (min (suc c + 1) (length d.rx)) in
    ground (
      arith,
      read_loop-Paired queue (i + n) (suc len - n) (receive i n (record d { arrivals = queue }))
          pairs,
    )
read_loop-Paired (fails ∷ queue) zero (suc len) d pairs = tt
read_loop-Paired (fails ∷ queue) (suc i) (suc len) d pairs =
    read_loop-Paired queue i (suc (suc len)) d pairs
read_loop-Paired (timer ∷ queue) i (suc len) d pairs =
    let later = record d { log = d.log ++ sent hci_reset ∷ [] ++ alarm 4 ∷ [] } in
    ground (
      arith,
      read_loop-Paired queue i (suc len) later pairs,
      read_loop-Paired queue i (suc len) d pairs,
    )

pub read_event-Paired : (d : Device) → Paired d → IfDone Paired (read_event d)
unfolding read_event
read_event-Paired d pairs =
    IfDone-bind Paired Paired (read_loop d.arrivals 0 3 d) _
      (read_loop-Paired d.arrivals 0 3 d pairs)
      (λ i d1. read_loop-Paired d1.arrivals i (get_or d1.buffer 2 0) d1)

pub exchange-Paired : (cmd : Bytes) (d : Device) → Paired d → IfDone Paired (exchange cmd d)
unfolding exchange
exchange-Paired cmd d pairs =
    let d1 = record d { log = d.log ++ sent cmd ∷ [] } in
    IfDone-bind Paired Paired (read_event d1) _ (read_event-Paired d1 pairs) (λ _ _ pairs2. pairs2)

-- The device when the two bytes have been read.
received-Ready :
    {hcd : Bytes} (rest : Bytes) {log : List Output} (replies : List Reply) (x y n : ℕ)
    (queue : List Arrival) (d : Device)
    → AllShort replies
    → n ≡ 2
    → Smooth true queue
    → Ready d hcd [] (x ∷ y ∷ (wire replies ++ rest)) log
    → Ready (receive 0 n (record d { arrivals = queue })) hcd replies rest log
unfolding receive
received-Ready rest replies x y n queue d short e calm w = record {
  will_send = rw (e, w.will_send) refl;
  short = short;
  calm = calm;
  size = length-splice d.buffer 0 (take n d.rx) ∙ w.size;
  file = w.file;
  readable = w.readable;
  did = w.did;
}

-- The two bytes are read by one call.
read_two_from-Ready :
    {hcd : Bytes} (rest : Bytes) {log : List Output} (replies : List Reply) (x y : ℕ)
    (queue : List Arrival) (d : Device)
    → AllShort replies
    → Smooth true queue
    → InPairs queue
    → Ready d hcd [] (x ∷ y ∷ (wire replies ++ rest)) log
    → Ends hcd replies rest log (read_two_from queue d)
unfolding read_two_from
read_two_from-Ready rest replies x y [] d short calm pairs w = ground (
  arith,
  ap length w.will_send,
  received-Ready rest replies x y 2 d.arrivals d short refl w.calm w,
)
read_two_from-Ready rest replies x y (gets zero ∷ queue) d short calm pairs w = absurd pairs
read_two_from-Ready rest replies x y (gets (suc c) ∷ queue) d short calm pairs w =
    let n : ℕ = min 2 (min (suc c + 1) (length d.rx)) in
    let two : n ≡ 2 = omega (arith, ap length w.will_send) in
    ground
      (arith, ap length w.will_send, received-Ready rest replies x y n queue d short two calm w)
read_two_from-Ready rest replies x y (fails ∷ queue) d short calm pairs w = absurd calm
read_two_from-Ready rest replies x y (timer ∷ queue) d short (off, calm) pairs w = cc

-- If the chip answers the minidriver command and then sends two bytes, no read has to do with one
-- byte, each record fits the buffer, and the chip has a reply to each further command, then
-- `proc_patchram` takes the two bytes and ends as it does without them: it sends the minidriver
-- command, one packet for each record of the file, in order, then the reset, with the waits and the
-- change of speed that the options ask for, takes one reply to each command, and reads the file to
-- its end.
pub proc_patchram-TwoBytes :
    (g : Globals) (records : List Record) (first : Reply) (replies more : List Reply) (x y : ℕ)
    (rest : Bytes) {log : List Output} (d : Device)
    → g.no2bytes ≡ false
    → AllFit records
    → length replies ≡ length records + 1
    → AllShort (replies ++ more)
    → InPairs d.arrivals
    → Ready d (hcd_file records) (first ∷ []) (x ∷ y ∷ (wire (replies ++ more) ++ rest)) log
    → Ends [] more rest (log ++ patchram_outputs g records) (proc_patchram g d)
unfolding proc_patchram
proc_patchram-TwoBytes g records first replies more x y rest {log} d waits fit same short pairs w =
    let file = hcd_file records in
    let P : Unit {0} → Device → Type 0 = λ _ d1.
      Ready d1 file [] (x ∷ y ∷ (wire (replies ++ more) ++ rest))
        (log ++ sent hci_download_minidriver ∷ [])
      × Paired d1 in
    let Q : Unit {0} → Device → Type 0 =
      λ _ d1. Ready d1 file (replies ++ more) rest (log ++ sent hci_download_minidriver ∷ []) in
    let R : Unit {0} → Device → Type 0 =
      λ _ d1. Ready d1 [] more rest (log ++ patchram_outputs g records) in
    rw waits (
      Returns-bind P R (exchange hci_download_minidriver d) (λ _. read_two >> send_firmware g)
        (Returns-and _ Paired _ (exchange-Ready hci_download_minidriver d w)
          (exchange-Paired hci_download_minidriver d pairs))
        λ _ d1 (w1, pairs1).
          Returns-bind Q R (read_two d1) (λ _. send_firmware g)
            (unfold read_two in
              read_two_from-Ready rest (replies ++ more) x y d1.arrivals d1 short w1.calm pairs1 w1)
            λ _ d2 w2.
              subst (λ l. Ends [] more rest l (send_firmware g d2))
                (append_assoc log (sent hci_download_minidriver ∷ []) (firmware_outputs g records))
                (Does-send_firmware g records fit d2 replies more rest _ same w2))
