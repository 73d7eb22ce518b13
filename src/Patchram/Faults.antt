-- ===== src/Patchram/Faults.antt =====
-- What brcm_patchram_plus/brcm_patchram_plus.c does when a read fails, of the firmware file or of
-- the port.
use platform_system_bluetoot.Prelude.{
  ◌≤◌, take, drop, splice-nil, length-splice, sym, ap, subst, ℕ, zero, suc, ◌+◌, ◌-◌, ◌<◌, ◌≡◌,
  refl, Bool, ◌∙◌, true, false, List, [], ◌∷◌, ◌++◌, arith, Bytes, length, length-drop, get_or, inl,
  inr, Bool-cases, splice, min,
}
use platform_system_bluetoot.Patchram.Device.{
  Arrival, gets, fails, timer, sent, alarm, Device, Run, fault, done, stops, Returns, Returns-mono,
  IfDone, IfDone-bind, Holds, Holds-IfDone,
}
use native.Mathlib.Decide.{dec_lt}
use platform_system_bluetoot.Patchram.Readable.{readable_positive, readable-stops}
use platform_system_bluetoot.Patchram.Globals.{hci_reset}
use platform_system_bluetoot.Patchram.Event.{expired, receive, read_loop, read_event}
use platform_system_bluetoot.Patchram.Event.Framing.{
  Smooth, Received, event, loops-Received, read_loop-part,
}
use platform_system_bluetoot.Patchram.Procedures.{
  is_zero, readable, read_hcd, send_record, download,
}

-- A read of the firmware file fails here.
abbrev pub Unreadable : Device → Type 0
Unreadable d = d.hcd_fails (length d.hcd) ≡ true

-- The firmware file cannot be read further when `k` bytes are left, and so many are left at least.
abbrev pub FailsAt : ℕ → Device → Type 0
FailsAt k d = (k ≤ length d.hcd) × (d.hcd_fails k ≡ true)

-- What holds of the firmware file before a read of the port holds behind it.
module _ (G : Bytes → (ℕ → Bool) → Type 0) where
  abbrev pub File : Device → Type 0
  File d = G d.hcd d.hcd_fails

  read_loop-File :
      (queue : List Arrival) (i len : ℕ) (d : Device)
      → File d
      → IfDone File (read_loop queue i len d)
  unfolding read_loop receive expired
  read_loop-File queue i zero d g = g
  read_loop-File [] i (suc len) d g = ground arith
  read_loop-File (gets c ∷ queue) i (suc len) d g =
      let n = min (suc len) (min (c + 1) (length d.rx)) in
      ground (
        arith,
        read_loop-File queue (i + n) (suc len - n) (receive i n (record d { arrivals = queue })) g,
      )
  read_loop-File (fails ∷ queue) zero (suc len) d g = tt
  read_loop-File (fails ∷ queue) (suc i) (suc len) d g = read_loop-File queue i (suc (suc len)) d g
  read_loop-File (timer ∷ queue) i (suc len) d g =
      let later = record d { log = d.log ++ sent hci_reset ∷ [] ++ alarm 4 ∷ [] } in
      ground (arith, read_loop-File queue i (suc len) later g, read_loop-File queue i (suc len) d g)

  pub read_event-File : (d : Device) → File d → IfDone File (read_event d)
  unfolding read_event
  read_event-File d g =
      IfDone-bind File File (read_loop d.arrivals 0 3 d) _ (read_loop-File d.arrivals 0 3 d g)
        (λ i d'. read_loop-File d'.arrivals i (get_or d'.buffer 2 0) d')

read_hcd-FailsAt : (k i len : ℕ) (d : Device) → FailsAt k d → IfDone (FailsAt k) (read_hcd i len d)
unfolding read_hcd
read_hcd-FailsAt k i len d (there, bad) =
    let n = readable d.hcd_fails len d.hcd in
    ground (arith, length-drop n d.hcd, readable-stops d.hcd_fails len d.hcd k bad there)

-- The head of a record is read in part at least, or the count is -1.
read_hcd-counts :
    (k : ℕ) (d : Device) → FailsAt k d → Holds (λ count _. is_zero count ≡ false) (read_hcd 1 3 d)
unfolding read_hcd
read_hcd-counts k d (there, bad) = elim (Bool-cases (d.hcd_fails (length d.hcd))) [
  | inl stop ↦ rw stop refl
  | inr ok ↦
      let differ : k ≡ length d.hcd → ⊥ =
        λ e. (let f : d.hcd_fails k ≡ false = ap d.hcd_fails e ∙ ok in cc) in
      let more : 0 < length d.hcd = elim (dec_lt k (length d.hcd)) [
        | yes less ↦ omega arith
        | no same ↦ absurd (differ (omega arith))
      ] in
      rw ok (ground (arith, readable_positive d.hcd_fails 2 d.hcd ok more))
]

Holds-and :
    {A : Type 0} (P : A → Device → Type 0) (Q : Device → Type 0) (r : Run A)
    → Holds P r
    → IfDone Q r
    → Holds (λ a d. P a d × Q d) r
Holds-and P Q (done a d) h k = (h, k)
Holds-and P Q (stops _ _) h k = tt

send_record-FailsAt : (k : ℕ) (d : Device) → FailsAt k d → IfDone (FailsAt k) (send_record d)
unfolding send_record
send_record-FailsAt k d bad =
    let filled = record d { buffer = splice d.buffer 0 (0x01 ∷ []) } in
    let len : ℕ = get_or filled.buffer 3 0 in
    IfDone-bind (FailsAt k) (FailsAt k) (read_hcd 4 len filled) _
      (read_hcd-FailsAt k 4 len filled bad)
      λ _ d1 bad1.
        let d2 = record d1 { log = d1.log ++ sent (take (len + 4) d1.buffer) ∷ [] } in
        IfDone-bind (FailsAt k) (FailsAt k) (read_event d2) _
          (read_event-File (λ hcd hcd_fails. (k ≤ length hcd) × (hcd_fails k ≡ true)) d2 bad1)
          (λ _ _ bad3. bad3)

-- Neither the count -1 nor a part of the head ends the loop.
download-Never : (k rounds : ℕ) (d : Device) → FailsAt k d → IfDone (λ _. ⊥) (download rounds d)
unfolding download
download-Never k zero d bad = tt
download-Never k (suc rounds) d bad =
    Holds-IfDone (λ count d1. (is_zero count ≡ false) × FailsAt k d1) (λ _. ⊥) (read_hcd 1 3 d) _
      (Holds-and (λ count _. is_zero count ≡ false) (FailsAt k) (read_hcd 1 3 d)
        (read_hcd-counts k d bad) (read_hcd-FailsAt k 1 3 d bad))
      λ count d1 (counts, bad1). rw counts (
        IfDone-bind (FailsAt k) (λ _. ⊥) (send_record d1) (λ _. download rounds)
          (send_record-FailsAt k d1 bad1) (λ _ d2. download-Never k rounds d2))

IfDone-Returns :
    {A : Type 0} (P : A → Device → Type 0) (r : Run A) → IfDone (λ _. ⊥) r → ¬ Returns P r
IfDone-Returns P (done a d) h = λ _. h
IfDone-Returns P (stops _ _) h = λ f. f

-- If there is a place in what is left of the firmware file, its start and its end included, where
-- the file can be read no further, then the loop of `proc_patchram` is never left, whatever the chip
-- sends and however the reads of the port come out: no number of rounds is enough.
pub download-Unending :
    (rounds k : ℕ) (d : Device)
    → k ≤ length d.hcd
    → d.hcd_fails k ≡ true
    → ¬ Returns (λ _ _. Unit) (download rounds d)
download-Unending rounds k d there bad =
    IfDone-Returns (λ _ _. Unit) (download rounds d) (download-Never k rounds d (there, bad))

-- The program lets go of the one byte that came.
read_loop-lost :
    (queue : List Arrival) (d : Device)
    → 3 ≤ length d.rx
    → 3 ≤ length d.buffer
    → read_loop (gets 0 ∷ fails ∷ queue) 0 3 d
      ≡ read_loop queue 0 3 (receive 0 1 (record d { arrivals = fails ∷ queue }))
unfolding read_loop
read_loop-lost queue d enough fits =
    read_loop-part 0 2 d (fails ∷ queue) 0 enough (omega arith) fits

splice-over :
    (xs : Bytes) (x y : ℕ) (ys : Bytes)
    → splice (splice xs 0 (x ∷ [])) 0 (y ∷ ys) ≡ splice xs 0 (y ∷ ys)
splice-over [] x y ys = refl
splice-over (z ∷ xs) x y ys = rw splice-nil refl

-- If the very first read of an event fails, the program goes on in front of its buffer. If a read
-- fails when one byte has come, then this byte is lost: what follows it is taken for the event.
pub read_event-Fails :
    (set : Bool) (queue : List Arrival) (d : Device) (x a b : ℕ) (params rest : Bytes)
    → (set ≡ false → d.alarm_set ≡ false)
    → Smooth set queue
    → d.rx ≡ x ∷ (event a b params ++ rest)
    → length params < 256
    → length d.buffer ≡ 1024
    → (read_event (record d { arrivals = fails ∷ queue })
        ≡ stops fault (record d { arrivals = fails ∷ queue }))
      × Returns
          (λ n d'.
            (n ≡ length (event a b params))
            × (d'.rx ≡ rest)
            × (d'.buffer ≡ splice d.buffer 0 (event a b params)))
          (read_event (record d { arrivals = gets 0 ∷ fails ∷ queue }))
unfolding read_event
read_event-Fails set queue d x a b params rest off s e small size =
    let fails_next = record d { arrivals = gets 0 ∷ fails ∷ queue } in
    let d1 = receive 0 1 (record d { arrivals = fails ∷ queue }) in
    let enough : 3 ≤ length d.rx = rw e (omega arith) in
    let Q : ℕ → Device → Type 0 = λ n d'.
      (n ≡ length (event a b params))
      × (d'.rx ≡ rest)
      × (d'.buffer ≡ splice d.buffer 0 (event a b params)) in
    (
      refl,
      subst
          (λ r. Returns Q (elim r [
            | done i d' ↦ read_loop d'.arrivals i (get_or d'.buffer 2 0) d'
            | stops why d' ↦ stops why d'
          ]))
          (sym (read_loop-lost queue fails_next enough (omega arith)))
          (Returns-mono
            (λ n d'. (n ≡ length (event a b params)) × Received set d1 0 (event a b params) rest d')
            Q _
            (loops-Received set queue d1 a b params rest off s (ap (drop 1) e) small
              (length-splice d.buffer 0 (take 1 d.rx) ∙ size))
            (λ n d' (k, q). (
              k,
              q.unread,
              q.stored
                  ∙ ap (λ t. splice (splice d.buffer 0 t) 0 (event a b params)) (ap (take 1) e)
                  ∙ splice-over d.buffer x a (b ∷ length params ∷ params),
            ))),
    )
