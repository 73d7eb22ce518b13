-- ===== src/Patchram/Always/Steps.antt =====
-- What the steps of `main` of brcm_patchram_plus/brcm_patchram_plus.c keep, and so every run of it.
use platform_system_bluetoot.Prelude.{
  ℕ, zero, suc, ◌<◌, Bool, true, false, ◌&&◌, ◌==◌, [], ◌∷◌, arith, drop, Bytes, ℤ, pos, negsuc,
  ltb, not, if◌then◌else◌, is_neg,
}
use platform_system_bluetoot.Patchram.Globals.{
  Globals, b115200, hci_download_minidriver, hci_write_sleep_mode, hci_reset,
}
use platform_system_bluetoot.Patchram.Options.{Parsed, returned, exits}
use platform_system_bluetoot.Patchram.Device.{
  Stop, sent, alarm, skip, Output, flush, set_raw, set_speed, usleep, set_discipline, set_protocol,
  Device, Cmd, output, when, ◌>>◌, pure,
}
use platform_system_bluetoot.Patchram.Event.{read_event}
use platform_system_bluetoot.Patchram.Procedures.{
  init_uart, exchange, proc_reset, set_alarm, proc_patchram, proc_baudrate, proc_bdaddr,
  proc_enable_lpm, proc_scopcm, proc_i2s, proc_enable_hci, tosleep_of, read_two, download_all,
}
use platform_system_bluetoot.Patchram.Main.{
  exited, sleeps, Start, is_positive, configure_options, configure, go_on, main,
}
use platform_system_bluetoot.Patchram.Outcome.{parsed}
use platform_system_bluetoot.Patchram.WellFormed.{IsCommand, WellFormed, Keeps, parsed-WellFormed}
use platform_system_bluetoot.Patchram.Packets.{
  AllPackets, IsPacket, IsCommand-IsPacket, params-IsPacket, reset-IsPacket,
}
use platform_system_bluetoot.Patchram.Always.{Always, Always-bind, when-Always, Rules}

module _ {P : Device → Type 0} {S : Stop → Device → Type 0} (rules : Rules P S) where
  -- A step after which this holds.
  abbrev Sends : Cmd (Unit {0}) → Type 0
  Sends m = (d : Device) → P d → Always P S (m d)

  Sends-then : (m n : Cmd (Unit {0})) → Sends m → Sends n → Sends (m >> n)
  Sends-then m n first second d p = Always-bind P S (m d) (λ _. n) (first d p) (λ _. second)

  -- What is done sends nothing.
  Sends-output : (o : Output) → AllPackets (o ∷ []) → Sends (output o)
  Sends-output o all d s = rules.outputs (o ∷ []) d.alarm_set d all s

  Sends-exchange : (cmd : Bytes) → IsPacket cmd → Sends (exchange cmd)
  unfolding exchange
  Sends-exchange cmd packet =
      Sends-then (output (sent cmd)) (λ d. (read_event >> skip) d)
        (Sends-output (sent cmd) (packet, tt))
        (λ d p. Always-bind P S (read_event d) (λ _. skip) (rules.reads_event d p) (λ _ _ q. q))

  Sends-set_alarm : (seconds : ℕ) → Sends (set_alarm seconds)
  Sends-set_alarm seconds d p = rules.outputs (alarm seconds ∷ []) (not (seconds == 0)) d (tt, tt) p

  Sends-proc_reset : Sends proc_reset
  unfolding proc_reset
  Sends-proc_reset =
      Sends-then (output (sent hci_reset)) _ (Sends-output (sent hci_reset) (reset-IsPacket, tt)) (
        Sends-then (set_alarm 4) _ (Sends-set_alarm 4) (λ d p.
          Always-bind P S (read_event d) (λ _. set_alarm 0) (rules.reads_event d p)
            (λ _. Sends-set_alarm 0)))

  Sends-when : (b : Bool) (m : Cmd (Unit {0})) → Sends m → Sends (when b m)
  Sends-when b m keeps d p = when-Always P S b m d p (keeps d p)

  Sends-command :
      (lo hi n : ℕ) (cmd : Bytes) → n < 256 → IsCommand lo hi n cmd → Sends (exchange cmd)
  Sends-command lo hi n cmd small c = Sends-exchange cmd (IsCommand-IsPacket lo hi n cmd small c)

  Sends-tosleep : (t : ℤ) → Sends (tosleep_of t)
  Sends-tosleep (pos zero) d s = s
  Sends-tosleep (pos (suc n)) d s = Sends-output (usleep (suc n)) (tt, tt) d s
  Sends-tosleep (negsuc n) d s = Sends-output _ (tt, tt) d s

  Sends-init_uart : Sends init_uart
  unfolding init_uart
  Sends-init_uart =
      let flushes = output flush in
      let sets = output set_raw in
      let m5 = flushes >> output (set_speed b115200) in
      let m4 = flushes >> m5 in
      let m3 = sets >> m4 in
      let m2 = flushes >> m3 in
      let flush_sends = Sends-output flush (tt, tt) in
      let raw_sends = Sends-output set_raw (tt, tt) in
      Sends-then flushes (sets >> m2) flush_sends (
        Sends-then sets m2 raw_sends (
          Sends-then flushes m3 flush_sends (
            Sends-then sets m4 raw_sends (
              Sends-then flushes m5 flush_sends (
                Sends-then flushes (output (set_speed b115200)) flush_sends
                  (Sends-output (set_speed b115200) (tt, tt)))))))

  Sends-proc_patchram : (g : Globals) → Sends (proc_patchram g)
  unfolding proc_patchram
  Sends-proc_patchram g =
      let slow = output (set_speed b115200) in
      Sends-then _ _
        (Sends-exchange hci_download_minidriver (params-IsPacket 0x2e 0xfc [] (omega arith)))
        (Sends-then _ _ (Sends-when (not g.no2bytes) read_two rules.reads_two) (
          Sends-then _ _ (Sends-tosleep g.tosleep) (
            Sends-then download_all _ rules.downloads (
              Sends-then _ _
                (Sends-when g.use_baudrate_for_download slow
                  (Sends-output (set_speed b115200) (tt, tt)))
                Sends-proc_reset))))

  Sends-proc_enable_lpm : Sends proc_enable_lpm
  unfolding proc_enable_lpm
  Sends-proc_enable_lpm =
      Sends-exchange hci_write_sleep_mode
        (params-IsPacket 0x27 0xfc (drop 4 hci_write_sleep_mode) (omega arith))

  Sends-proc_enable_hci : (has_discipline : Bool) → Sends (proc_enable_hci has_discipline)
  unfolding proc_enable_hci
  Sends-proc_enable_hci has_discipline =
      Sends-then (output (set_discipline 15)) (when has_discipline (output (set_protocol 0)))
        (Sends-output (set_discipline 15) (tt, tt))
        (Sends-when has_discipline (output (set_protocol 0))
          (Sends-output (set_protocol 0) (tt, tt)))

  module _ (g : Globals) (w : WellFormed g) where
    Sends-proc_baudrate : Sends (proc_baudrate g)
    unfolding proc_baudrate
    Sends-proc_baudrate =
        let (rate, addr, sco, format, wire) = w in
        Sends-then (exchange g.hci_update_baud_rate) _ (Sends-command _ _ 6 _ (omega arith) rate)
          (Sends-output (set_speed g.termios_baudrate) (tt, tt))

    Sends-proc_bdaddr : Sends (proc_bdaddr g)
    unfolding proc_bdaddr
    Sends-proc_bdaddr =
        let (rate, addr, sco, format, wire) = w in Sends-command _ _ 6 _ (omega arith) addr

    Sends-proc_scopcm : Sends (proc_scopcm g)
    unfolding proc_scopcm
    Sends-proc_scopcm =
        let (rate, addr, sco, format, wire) = w in
        Sends-then (exchange g.hci_write_sco_pcm_int) (exchange g.hci_write_pcm_data_format)
          (Sends-command _ _ 5 _ (omega arith) sco) (Sends-command _ _ 5 _ (omega arith) format)

    Sends-proc_i2s : Sends (proc_i2s g)
    unfolding proc_i2s
    Sends-proc_i2s =
        let (rate, addr, sco, format, wire) = w in Sends-command _ _ 4 _ (omega arith) wire

    Sends-configure_options : (has_discipline : Bool) → Sends (configure_options has_discipline g)
    unfolding configure_options
    Sends-configure_options has_discipline =
        Sends-then _ _ (Sends-when (ltb 0 g.termios_baudrate) (proc_baudrate g) Sends-proc_baudrate)
          (Sends-then _ _ (Sends-when g.bdaddr_flag (proc_bdaddr g) Sends-proc_bdaddr) (
            Sends-then _ _ (Sends-when g.enable_lpm proc_enable_lpm Sends-proc_enable_lpm) (
              Sends-then _ _ (Sends-when g.scopcm (proc_scopcm g) Sends-proc_scopcm) (
                Sends-then _ _ (Sends-when g.i2s (proc_i2s g) Sends-proc_i2s) (
                  Sends-when g.enable_hci (proc_enable_hci has_discipline)
                    (Sends-proc_enable_hci has_discipline))))))

    Sends-configure : (has_discipline : Bool) → Sends (configure has_discipline g)
    unfolding configure
    Sends-configure has_discipline = Sends-then _ _ Sends-init_uart (
        Sends-then _ _ Sends-proc_reset (
          Sends-then _ _
            (Sends-when (g.use_baudrate_for_download && ltb 0 g.termios_baudrate) (proc_baudrate g)
              Sends-proc_baudrate)
            (Sends-then _ _
              (Sends-when (is_positive g.hcdfile_fd) (proc_patchram g) (Sends-proc_patchram g))
              (Sends-configure_options has_discipline))))

  pub go_on-Always :
      (has_discipline : Bool) (p : Parsed) (d : Device)
      → Keeps p
      → P d
      → Always P S (go_on has_discipline p d)
  unfolding go_on
  go_on-Always has_discipline (exits code) d w s = s
  go_on-Always has_discipline (returned (suc ret) g) d w s = s
  go_on-Always has_discipline (returned zero g) d w s =
      elim (is_neg g.uart_fd)
        as (λ b. Always P S (elim b [
          | true ↦ pure (exited 2) d
          | false ↦
              (configure has_discipline g >> pure (if g.enable_hci then sleeps else exited 0)) d
        ])) [
          | true ↦ s
          | false ↦
              Always-bind P S (configure has_discipline g d)
                (λ _. pure (if g.enable_hci then sleeps else exited 0))
                (Sends-configure g w has_discipline d s) (λ _ _ s'. s')
        ]

  -- What holds at first holds in every run of `main`.
  pub main-Always : (s : Start) (d : Device) → P d → Always P S (main s d)
  unfolding main
  main-Always s d p = go_on-Always s.has_discipline (parsed s) d (parsed-WellFormed s) p
