-- ===== src/Patchram/Always/Bounds.antt =====
-- brcm_patchram_plus/brcm_patchram_plus.c ends or waits, and stays inside of its buffer.
use platform_system_bluetoot.Prelude.{
  ℤ, Bool, true, ◌⊎◌, inl, inr, length-drop, ℕ, zero, suc, ◌+◌, ◌<◌, ◌≡◌, not, [], ◌∷◌, ◌++◌, arith,
  Bytes, length, get_or, take, splice,
}
use platform_system_bluetoot.Libc.Hex.{AreBytes}
use platform_system_bluetoot.Patchram.Device.{
  Holds, IfDone, IfDone-bind, sent, Device, Run, Cmd, done, stops, ◌>>◌,
}
use platform_system_bluetoot.Patchram.Event.{read_event}
use platform_system_bluetoot.Patchram.Readable.{readable_bounds, readable_positive}
use platform_system_bluetoot.Patchram.Procedures.{
  is_zero, readable, read_hcd, send_record, download,
}
use platform_system_bluetoot.Patchram.Always.{Always, when-Always, Rules}
use platform_system_bluetoot.Patchram.Faults.{read_event-File}
use platform_system_bluetoot.Patchram.Main.{Start, main}
use platform_system_bluetoot.Patchram.Always.Steps.{main-Always}
use platform_system_bluetoot.Patchram.Always.Reads.{
  NoFails, Waits, Kept, InBounds, read_event-Kept, read_two-Kept, read_hcd-Kept, send_record-Kept,
}

-- So many rounds are enough for what is left of the file, or it cannot be read there.
abbrev Rounds : ℕ → Bytes → (ℕ → Bool) → Type 0
Rounds k hcd hcd_fails = (length hcd < k) ⊎ (hcd_fails (length hcd) ≡ true)

abbrev HasRounds : ℕ → Device → Type 0
HasRounds k d = Rounds k d.hcd d.hcd_fails

read_hcd-HasRounds :
    (k i len : ℕ) (d : Device) → HasRounds k d → IfDone (HasRounds k) (read_hcd i len d)
unfolding read_hcd
read_hcd-HasRounds k i len d h =
    let n = readable d.hcd_fails len d.hcd in ground (arith, length-drop n d.hcd)

send_record-HasRounds : (k : ℕ) (d : Device) → HasRounds k d → IfDone (HasRounds k) (send_record d)
unfolding send_record
send_record-HasRounds k d h =
    let filled = record d { buffer = splice d.buffer 0 (0x01 ∷ []) } in
    let len : ℕ = get_or filled.buffer 3 0 in
    IfDone-bind (HasRounds k) (HasRounds k) (read_hcd 4 len filled) _
      (read_hcd-HasRounds k 4 len filled h)
      λ _ d1 h1.
        let d2 = record d1 { log = d1.log ++ sent (take (len + 4) d1.buffer) ∷ [] } in
        IfDone-bind (HasRounds k) (HasRounds k) (read_event d2) _ (read_event-File (Rounds k) d2 h1)
          (λ _ _ h3. h3)

-- The head of a record takes a byte of the file, or there is none, or it cannot be read.
abbrev Took : ℕ → ℤ → Device → Type 0
Took rounds count d = (is_zero count ≡ true) ⊎ HasRounds rounds d

read_hcd-Took :
    (rounds : ℕ) (d : Device) → HasRounds (suc rounds) d → Holds (Took rounds) (read_hcd 1 3 d)
unfolding read_hcd
read_hcd-Took rounds d h =
    let n = readable d.hcd_fails 3 d.hcd in
    ground (
      arith,
      length-drop n d.hcd,
      readable_bounds d.hcd_fails 3 d.hcd,
      readable_positive d.hcd_fails 2 d.hcd,
    )

IfDone-Holds : {A : Type 0} (Q : Device → Type 0) (r : Run A) → IfDone Q r → Holds (λ _. Q) r
IfDone-Holds Q (done a d) q = q
IfDone-Holds Q (stops _ _) q = q

-- A run goes on with two facts about its result.
Holds-bind :
    {A B : Type 0} (Q : A → Device → Type 0) (r : Run A) (f : A → Cmd B)
    → InBounds r
    → Holds Q r
    → ((a : A) (d : Device) → Kept d → Q a d → InBounds (f a d))
    → InBounds (elim r [ done a d ↦ f a d | stops why d ↦ stops why d ])
Holds-bind Q (done a d) f kept q next = next a d kept q
Holds-bind Q (stops _ _) f h q next = h

download-Kept :
    (rounds : ℕ) (d : Device) → HasRounds rounds d → Kept d → InBounds (download rounds d)
unfolding download
download-Kept zero d (inl few) kept = absurd (omega arith)
download-Kept zero d (inr bad) kept = bad
download-Kept (suc rounds) d h kept =
    Holds-bind (Took rounds) (read_hcd 1 3 d) _ (read_hcd-Kept 1 3 d (omega arith) kept)
      (read_hcd-Took rounds d h)
      λ count d1 kept1 took. elim took [
        | inl over ↦ rw over kept1
        | inr has ↦
            when-Always Kept Waits (not (is_zero count)) (send_record >> download rounds) d1 kept1 (
              Holds-bind (λ _. HasRounds rounds) (send_record d1) (λ _. download rounds)
                (send_record-Kept d1 kept1)
                (IfDone-Holds (HasRounds rounds) (send_record d1)
                  (send_record-HasRounds rounds d1 has))
                (λ _ d2 kept2 has2. download-Kept rounds d2 has2 kept2))
      ]

rules-Kept : Rules Kept Waits
rules-Kept = record {
  outputs = λ os set d all kept. kept;
  reads_event = read_event-Kept;
  reads_two = read_two-Kept;
  downloads = λ d. download-Kept (length d.hcd + 1) d (inl (omega arith));
}

-- For every command line, and whatever bytes the chip sends, the firmware file and the buffer of
-- 1024 bytes hold: if no read of the port fails, then `main` ends, with 1024 bytes in the buffer, or
-- it waits for a byte of the chip for ever, or it reads the firmware file again and again where that
-- fails. It accesses nothing outside of the buffer.
pub main-Waits :
    (s : Start) (d : Device)
    → AreBytes d.rx
    → AreBytes d.hcd
    → AreBytes d.buffer
    → length d.buffer ≡ 1024
    → NoFails d.arrivals
    → Always (λ d'. length d'.buffer ≡ 1024) Waits (main s d)
main-Waits s d rx hcd buffer size calm =
    go (main s d) (main-Always rules-Kept s d ((rx, hcd, buffer, size), calm))
  where
    go : {A : Type 0} (r : Run A) → InBounds r → Always (λ d'. length d'.buffer ≡ 1024) Waits r
    go (done _ d') kept = let ((rx, hcd, buffer, size), calm) = kept in size
    go (stops why d') kept = kept
