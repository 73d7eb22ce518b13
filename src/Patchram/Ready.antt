-- ===== src/Patchram/Ready.antt =====
-- A chip that answers: the state of the device between two commands of the program.
use platform_system_bluetoot.Prelude.{
  ℕ, ◌<◌, ◌≡◌, ap, subst, ◌∙◌, Bool, true, false, List, [], ◌∷◌, ◌++◌, Bytes, length, append_assoc,
  length-splice,
}
use platform_system_bluetoot.Patchram.Globals.{hci_reset}
use platform_system_bluetoot.Patchram.Device.{
  Output, sent, alarm, Device, Run, skip, Returns, Returns-bind, Returns-mono,
}
use platform_system_bluetoot.Patchram.Event.{read_event}
use platform_system_bluetoot.Patchram.Event.Framing.{Smooth, Received, event, read_event-Received}
use platform_system_bluetoot.Patchram.Procedures.{exchange, set_alarm, proc_reset}

-- An event by its two codes and its parameters.
abbrev pub Reply : Type 0
Reply = ℕ × ℕ × Bytes

abbrev pub wire : List Reply → Bytes
wire [] = []
wire ((a, b, params) ∷ replies) = event a b params ++ wire replies

abbrev pub AllShort : List Reply → Type 0
AllShort [] = Unit
AllShort ((a, b, params) ∷ replies) = (length params < 256) × AllShort replies

-- The chip will send the events `replies` and then `rest`, with no failure and no time-out, in
-- pieces of any sizes; `hcd` is left of the firmware file, which can be read, and `log` is what was done.
pub record Ready (d : Device) (hcd : Bytes) (replies : List Reply) (rest : Bytes)
    (log : List Output) : Type 0 where
  pub will_send : d.rx ≡ wire replies ++ rest
  pub short : AllShort replies
  pub calm : Smooth true d.arrivals
  pub size : length d.buffer ≡ 1024
  pub file : d.hcd ≡ hcd
  pub readable : d.hcd_fails ≡ λ _. false
  pub did : d.log ≡ log

-- A run ends in such a state.
abbrev pub Ends : Bytes → List Reply → Bytes → List Output → {A : Type 0} → Run A → Type 0
Ends hcd replies rest log = Returns (λ _ d. Ready d hcd replies rest log)

module _ {hcd rest : Bytes} {replies : List Reply} {log : List Output} where
  -- Something is done that the chip does not answer.
  pub output-Ready :
      (o : Output) (set : Bool) (d : Device)
      → Ready d hcd replies rest log
      → Ready (record d { log = d.log ++ o ∷ []; alarm_set = set }) hcd replies rest (log ++ o ∷ [])
  output-Ready o set d w = record {
    will_send = w.will_send;
    short = w.short;
    calm = w.calm;
    size = w.size;
    file = w.file;
    readable = w.readable;
    did = ap (λ l. l ++ o ∷ []) w.did;
  }

  -- `read_event` takes one reply.
  pub read_event-Ready :
      {r : Reply} (d : Device)
      → Ready d hcd (r ∷ replies) rest log
      → Ends hcd replies rest log (read_event d)
  read_event-Ready {r} d w =
      let params = r.2 in
      Returns-mono
        (λ n d'.
          (n ≡ length (event r.0 r.1 params))
          × Received true d 0 (event r.0 r.1 params) (wire replies ++ rest) d')
        (λ _ d'. Ready d' hcd replies rest log) (read_event d)
        (read_event-Received true d r.0 r.1 params (wire replies ++ rest) (λ e. cc) w.calm
          (w.will_send ∙ append_assoc (event r.0 r.1 params) (wire replies) rest) w.short.0 w.size)
        λ n d' (k, q). record {
          will_send = q.unread;
          short = w.short.1;
          calm = q.smooth;
          size = ap length q.stored ∙ length-splice d.buffer 0 (event r.0 r.1 params) ∙ w.size;
          file = q.same_hcd ∙ w.file;
          readable = q.same_fails ∙ w.readable;
          did = q.same_log ∙ w.did;
        }

-- A command goes out, and the reply to it is taken.
pub exchange-Ready :
    {hcd rest : Bytes} {r : Reply} {replies : List Reply} {log : List Output} (cmd : Bytes)
    (d : Device)
    → Ready d hcd (r ∷ replies) rest log
    → Ends hcd replies rest (log ++ sent cmd ∷ []) (exchange cmd d)
unfolding exchange
exchange-Ready {hcd} {rest} {replies} {log} cmd d w =
    let P : (A : Type 0) → A → Device → Type 0 =
      λ A _ d'. Ready d' hcd replies rest (log ++ sent cmd ∷ []) in
    let d1 = record d { log = d.log ++ sent cmd ∷ [] } in
    Returns-bind (P ℕ) (P Unit) (read_event d1) (λ _. skip)
      (read_event-Ready d1 (output-Ready (sent cmd) d.alarm_set d w)) (λ _ d' w'. w')

abbrev pub reset_outputs : List Output
reset_outputs = sent hci_reset ∷ alarm 4 ∷ alarm 0 ∷ []

-- `proc_reset` sends the reset between two settings of the timer.
pub proc_reset-Ready :
    {hcd rest : Bytes} {r : Reply} {replies : List Reply} {log : List Output} (d : Device)
    → Ready d hcd (r ∷ replies) rest log
    → Ends hcd replies rest (log ++ reset_outputs) (proc_reset d)
unfolding proc_reset
proc_reset-Ready {hcd} {rest} {replies} {log} d w =
    let d1 = record d { log = d.log ++ sent hci_reset ∷ [] } in
    let d2 = record d1 { alarm_set = true; log = d1.log ++ alarm 4 ∷ [] } in
    let w1 = output-Ready (sent hci_reset) d.alarm_set d w in
    let w2 = output-Ready (alarm 4) true d1 w1 in
    Returns-bind (λ _ d'. Ready d' hcd replies rest (log ++ sent hci_reset ∷ [] ++ alarm 4 ∷ []))
      (λ _ d'. Ready d' hcd replies rest (log ++ reset_outputs)) (read_event d2) (λ _. set_alarm 0)
      (read_event-Ready d2 w2)
      λ _ d' w'.
        subst (Ready _ hcd replies rest) (simp append_assoc) (output-Ready (alarm 0) false d' w')
