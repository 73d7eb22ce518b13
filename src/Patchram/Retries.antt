-- ===== src/Patchram/Retries.antt =====
-- `proc_reset` of brcm_patchram_plus/brcm_patchram_plus.c when the chip does not answer at once.
use platform_system_bluetoot.Prelude.{
  ℕ, zero, suc, get_or, ◌<◌, ◌≡◌, refl, ap, sym, subst, ◌∙◌, true, false, List, [], ◌∷◌, ◌++◌,
  Bytes, length, replicate, splice, append_assoc, append-nil,
}
use platform_system_bluetoot.Patchram.Globals.{hci_reset}
use platform_system_bluetoot.Patchram.Device.{
  Arrival, timer, Output, sent, alarm, Device, done, stops, Returns, Returns-bind,
}
use platform_system_bluetoot.Patchram.Event.{expired, read_loop, read_event}
use platform_system_bluetoot.Patchram.Event.Framing.{Smooth, Received, event, loops-Received}
use platform_system_bluetoot.Patchram.Procedures.{set_alarm, proc_reset}

-- The reset command is sent and the timer is set, so many times.
abbrev pub resets : ℕ → List Output
resets zero = []
resets (suc k) = sent hci_reset ∷ alarm 4 ∷ resets k

resets-append :
    (log : List Output) (k : ℕ)
    → ((log ++ sent hci_reset ∷ []) ++ alarm 4 ∷ []) ++ resets k ≡ log ++ resets (suc k)
resets-append log k =
    append_assoc (log ++ sent hci_reset ∷ []) (alarm 4 ∷ []) (resets k)
    ∙ append_assoc log (sent hci_reset ∷ []) (alarm 4 ∷ resets k)

read_loop-expired :
    (queue : List Arrival) (d : Device)
    → d.alarm_set ≡ true
    → read_loop (timer ∷ queue) 0 3 d
      ≡ read_loop queue 0 3 (record d { log = (d.log ++ sent hci_reset ∷ []) ++ alarm 4 ∷ [] })
unfolding read_loop expired
read_loop-expired queue d set = simp set refl

-- The timer expires so many times before a byte is there.
read_loop-timers :
    (k : ℕ) (queue : List Arrival) (d : Device)
    → d.alarm_set ≡ true
    → read_loop (replicate k timer ++ queue) 0 3 d
      ≡ read_loop queue 0 3 (record d { log = d.log ++ resets k })
read_loop-timers zero queue d set =
    ap (λ l. read_loop queue 0 3 (record d { log = l })) (sym (append-nil d.log))
read_loop-timers (suc k) queue d set =
    let d1 : Device = record d { log = (d.log ++ sent hci_reset ∷ []) ++ alarm 4 ∷ [] } in
    read_loop-expired (replicate k timer ++ queue) d set
    ∙ read_loop-timers k queue d1 set
    ∙ ap (λ l. read_loop queue 0 3 (record d { log = l }))
        (append_assoc (d.log ++ sent hci_reset ∷ []) (alarm 4 ∷ []) (resets k)
          ∙ append_assoc d.log (sent hci_reset ∷ []) (alarm 4 ∷ resets k))

-- The chip was reset: the event was taken, and the timer is off.
abbrev pub WasReset : ℕ → Device → Bytes → Bytes → Device → Type 0
WasReset k d answer rest d' =
    (d'.rx ≡ rest)
    × (d'.buffer ≡ splice d.buffer 0 answer)
    × (d'.alarm_set ≡ false)
    × (d'.hcd ≡ d.hcd)
    × (d'.log ≡ d.log ++ resets (suc k) ++ alarm 0 ∷ [])

-- If the timer expires `k` times before a byte arrives, then no read fails and the timer does not
-- expire any more, and the chip sends an event of fewer than 256 parameters: `proc_reset` ends. It
-- has sent the reset command `k + 1` times, and set the timer after each of them, and has then taken
-- exactly the event and switched the timer off.
pub proc_reset-Retries :
    (k : ℕ) (queue : List Arrival) (d : Device) (a b : ℕ) (params rest : Bytes)
    → d.arrivals ≡ replicate k timer ++ queue
    → Smooth true queue
    → d.rx ≡ event a b params ++ rest
    → length params < 256
    → length d.buffer ≡ 1024
    → Returns (λ _ d'. WasReset k d (event a b params) rest d') (proc_reset d)
unfolding proc_reset read_event
proc_reset-Retries k queue d a b params rest at calm e small size =
    let d1 : Device = record d {
      alarm_set = true;
      log = (d.log ++ sent hci_reset ∷ []) ++ alarm 4 ∷ [];
    } in
    let d2 : Device = record d1 { log = d1.log ++ resets k } in
    let first : read_loop d1.arrivals 0 3 d1 ≡ read_loop queue 0 3 d2 =
      ap (λ q. read_loop q 0 3 d1) at ∙ read_loop-timers k queue d1 refl in
    let taken = loops-Received true queue d2 a b params rest (λ f. cc) calm e small size in
    let P : ℕ → Device → Type 0 =
      λ n d'. (n ≡ length (event a b params)) × Received true d2 0 (event a b params) rest d' in
    Returns-bind P (λ _ d'. WasReset k d (event a b params) rest d') (read_event d1)
      (λ _. set_alarm 0)
      (subst
        (λ r. Returns P (elim r [
          | done i d' ↦ read_loop d'.arrivals i (get_or d'.buffer 2 0) d'
          | stops why d' ↦ stops why d'
        ]))
        (sym first) taken)
      λ n d' (_, q). (
        q.unread,
        q.stored,
        refl,
        q.same_hcd,
        ap (λ l. l ++ alarm 0 ∷ []) (q.same_log ∙ resets-append d.log k),
      )
