-- ===== src/Patchram/Script.antt =====
-- The order of what the program does to the chip, composed of its steps.
use platform_system_bluetoot.Prelude.{
  ℕ, zero, suc, ◌+◌, ◌-◌, ◌^◌, ◌≤◌, ◌≡◌, refl, ap, sym, subst, ◌∙◌, Bool, true, false, not, List,
  [], ◌∷◌, ◌++◌, map, arith, if◌then◌else◌, Bytes, ℤ, pos, negsuc, length, take, drop, append-nil,
  append_assoc, length-append, length-take, length-drop, take-append-drop,
}
use platform_system_bluetoot.Patchram.Globals.{Globals, hci_download_minidriver, b115200}
use platform_system_bluetoot.Patchram.Device.{
  Output, sent, set_speed, usleep, Device, Cmd, Returns-bind, skip, output, when, ◌>>◌,
}
use platform_system_bluetoot.Patchram.Procedures.{
  exchange, proc_reset, tosleep_of, download_all, proc_patchram, read_two,
}
use platform_system_bluetoot.Patchram.Ready.{
  Reply, Ready, Ends, reset_outputs, output-Ready, exchange-Ready, proc_reset-Ready,
}
use platform_system_bluetoot.Patchram.Download.{Record, hcd_file, AllFit, packet, download-Ends}

-- The step `m` takes the firmware file from `hcd` to `hcd'` and `count` replies from the chip, and
-- does `outputs`.
abbrev pub Does : Cmd (Unit {0}) → Bytes → Bytes → ℕ → List Output → Type 0
Does m hcd hcd' count outputs =
    (d : Device) (replies more : List Reply) (rest : Bytes) (log : List Output)
    → length replies ≡ count
    → Ready d hcd (replies ++ more) rest log
    → Ends hcd' more rest (log ++ outputs) (m d)

module _ {hcd : Bytes} where
  pub Does-skip : Does skip hcd hcd 0 []
  Does-skip d [] more rest log e w = rw append-nil w
  Does-skip d (r ∷ replies) more rest log e w = absurd (omega arith)

  pub Does-output : (o : Output) → Does (output o) hcd hcd 0 (o ∷ [])
  Does-output o d [] more rest log e w = output-Ready o d.alarm_set d w
  Does-output o d (r ∷ replies) more rest log e w = absurd (omega arith)

  pub Does-exchange : (cmd : Bytes) → Does (exchange cmd) hcd hcd 1 (sent cmd ∷ [])
  Does-exchange cmd d (r ∷ []) more rest log e w = exchange-Ready cmd d w
  Does-exchange cmd d [] more rest log e w = absurd (omega arith)
  Does-exchange cmd d (r ∷ q ∷ replies) more rest log e w = absurd (omega arith)

  pub Does-proc_reset : Does proc_reset hcd hcd 1 reset_outputs
  Does-proc_reset d (r ∷ []) more rest log e w = proc_reset-Ready d w
  Does-proc_reset d [] more rest log e w = absurd (omega arith)
  Does-proc_reset d (r ∷ q ∷ replies) more rest log e w = absurd (omega arith)

-- One step after another.
pub Does-then :
    (m n : Cmd (Unit {0})) (h1 h2 h3 : Bytes) (k l : ℕ) (os ps : List Output)
    → Does m h1 h2 k os
    → Does n h2 h3 l ps
    → Does (m >> n) h1 h3 (k + l) (os ++ ps)
Does-then m n h1 h2 h3 k l os ps f g d replies more rest log e w =
    Returns-bind (λ _ d'. Ready d' h2 (drop k replies ++ more) rest (log ++ os))
      (λ _ d'. Ready d' h3 more rest (log ++ (os ++ ps))) (m d) (λ _. n)
      (f d (take k replies) (drop k replies ++ more) rest log (omega (arith, length-take k replies))
        (subst (λ rs. Ready d h1 rs rest log)
          (ap (λ rs. rs ++ more) (sym (take-append-drop k replies))
            ∙ append_assoc (take k replies) (drop k replies) more)
          w))
      λ _ d' w'.
        subst (λ l. Ends h3 more rest l (n d')) (append_assoc log os ps)
          (g d' (drop k replies) more rest (log ++ os) (omega (arith, length-drop k replies)) w')

pub Does-when :
    (b : Bool) (m : Cmd (Unit {0})) (h h' : Bytes) (k : ℕ) (os : List Output)
    → (b ≡ true → Does m h h' k os)
    → Does (when b m) h (if b then h' else h) (if b then k else 0) (if b then os else [])
Does-when true m h h' k os f = f refl
Does-when false m h h' k os f = Does-skip

-- A step that leaves the file.
pub Does-when_same :
    (b : Bool) (m : Cmd (Unit {0})) (h : Bytes) (k : ℕ) (os : List Output)
    → Does m h h k os
    → Does (when b m) h h (if b then k else 0) (if b then os else [])
Does-when_same true m h k os f = f
Does-when_same false m h k os f = Does-skip

Does-unless :
    {h : Bytes} (b : Bool) (m : Cmd (Unit {0})) → b ≡ true → Does (when (not b) m) h h 0 []
Does-unless true m e = Does-skip
Does-unless false m e = cc

pub Does-count :
    (m : Cmd (Unit {0})) (h h' : Bytes) (k k' : ℕ) (os : List Output)
    → k ≡ k'
    → Does m h h' k os
    → Does m h h' k' os
Does-count m h h' k k' os same f d replies more rest log e w =
    f d replies more rest log (e ∙ sym same) w

length-hcd_file : (records : List Record) → length records ≤ length (hcd_file records)
length-hcd_file [] = omega arith
length-hcd_file ((lo, hi, payload) ∷ records) =
    omega (arith, length-hcd_file records, length-append payload (hcd_file records))

Does-download :
    (records : List Record)
    → AllFit records
    → Does download_all (hcd_file records) [] (length records) (map packet records)
Does-download records fit d replies more rest log e w =
    download-Ends records replies more (length d.hcd + 1) d
      (omega (arith, length-hcd_file records, ap length w.file)) e fit w

abbrev pub sleep_outputs : ℤ → List Output
sleep_outputs (pos zero) = []
sleep_outputs (pos (suc n)) = usleep (suc n) ∷ []
sleep_outputs (negsuc n) = usleep (2 ^ 32 - (n + 1)) ∷ []

Does-tosleep : {hcd : Bytes} (t : ℤ) → Does (tosleep_of t) hcd hcd 0 (sleep_outputs t)
Does-tosleep (pos zero) = Does-skip
Does-tosleep (pos (suc n)) = Does-output (usleep (suc n))
Does-tosleep (negsuc n) = Does-output (usleep (2 ^ 32 - (n + 1)))

-- What `proc_patchram` does once the minidriver runs: the wait, the records, the speed, and the
-- reset.
abbrev pub firmware_outputs : Globals → List Record → List Output
firmware_outputs g records =
    sleep_outputs g.tosleep
    ++ (map packet records
        ++ ((if g.use_baudrate_for_download then set_speed b115200 ∷ [] else []) ++ reset_outputs))

-- What `proc_patchram` does.
abbrev pub patchram_outputs : Globals → List Record → List Output
patchram_outputs g records = sent hci_download_minidriver ∷ firmware_outputs g records

-- `proc_patchram` behind the two bytes.
abbrev pub send_firmware : Globals → Cmd (Unit {0})
send_firmware g = do
  tosleep_of g.tosleep
  download_all
  when g.use_baudrate_for_download (output (set_speed b115200))
  proc_reset

pub Does-send_firmware :
    (g : Globals) (records : List Record)
    → AllFit records
    → Does (send_firmware g) (hcd_file records) [] (length records + 1) (firmware_outputs g records)
Does-send_firmware g records fit =
    let file = hcd_file records in
    let speed = g.use_baudrate_for_download in
    Does-count _ _ [] _ _ _ (ground arith) (
      Does-then _ _ file file [] _ _ _ _ (Does-tosleep g.tosleep) (
        Does-then _ _ file [] [] _ _ _ _ (Does-download records fit) (
          Does-then _ _ [] [] [] _ _ _ _
            (Does-when_same speed (output (set_speed b115200)) [] _ _
              (Does-output (set_speed b115200)))
            Does-proc_reset)))

pub Does-proc_patchram :
    (g : Globals) (records : List Record)
    → g.no2bytes ≡ true
    → AllFit records
    → Does (proc_patchram g) (hcd_file records) [] (length records + 2) (patchram_outputs g records)
unfolding proc_patchram
Does-proc_patchram g records no2 fit =
    let file = hcd_file records in
    Does-count _ _ [] _ _ _ (ground arith) (
      Does-then _ _ file file [] _ _ _ _ (Does-exchange hci_download_minidriver) (
        Does-then _ _ file file [] _ _ _ _ (Does-unless g.no2bytes read_two no2)
          (Does-send_firmware g records fit)))

-- If the two extra bytes are not waited for, the firmware file can be read and consists of whole
-- records of fewer than 256 bytes each, the chip answers each command with one event, no read fails
-- and the timer does not expire, then `proc_patchram` ends. It sends the minidriver command, then one packet for
-- each record of the file, in order, then the reset, with the waits and the change of speed that
-- the options ask for. It takes one reply to each command, and reads the file to its end.
pub proc_patchram-Does :
    (g : Globals) (records : List Record) (replies more : List Reply) {rest : Bytes}
    {log : List Output} (d : Device)
    → g.no2bytes ≡ true
    → AllFit records
    → length replies ≡ length records + 2
    → Ready d (hcd_file records) (replies ++ more) rest log
    → Ends [] more rest (log ++ patchram_outputs g records) (proc_patchram g d)
proc_patchram-Does g records replies more {rest} {log} d no2 fit same w =
    Does-proc_patchram g records no2 fit d replies more rest log same w
