-- ===== src/Patchram/Configure.antt =====
-- The order of the commands of `main`, and how it ends.
use platform_system_bluetoot.Prelude.{
  ℕ, ◌+◌, ◌≡◌, Bool, true, false, ◌&&◌, List, [], ◌∷◌, ◌++◌, arith, ltb, if◌then◌else◌, length,
  Bytes, append_assoc,
}
use platform_system_bluetoot.Patchram.Globals.{Globals, hci_write_sleep_mode, b115200}
use platform_system_bluetoot.Patchram.Device.{
  Cmd, ◌>>◌, skip, Output, sent, flush, set_raw, set_speed, set_discipline, set_protocol, output,
}
use platform_system_bluetoot.Patchram.Procedures.{
  init_uart, proc_patchram, proc_baudrate, proc_bdaddr, proc_enable_lpm, proc_scopcm, proc_i2s,
  proc_enable_hci,
}
use platform_system_bluetoot.Patchram.Ready.{reset_outputs}
use platform_system_bluetoot.Patchram.Download.{Record, hcd_file, AllFit}
use platform_system_bluetoot.Patchram.Main.{is_positive, configure_options, configure}
use platform_system_bluetoot.Patchram.Script.{
  Does, Does-skip, Does-output, Does-exchange, Does-proc_reset, Does-then, Does-when,
  Does-when_same, Does-count, patchram_outputs, Does-proc_patchram,
}

-- What `init_uart` does.
abbrev pub uart_outputs : List Output
uart_outputs = flush ∷ set_raw ∷ flush ∷ set_raw ∷ flush ∷ flush ∷ set_speed b115200 ∷ []

abbrev pub baudrate_outputs : Globals → List Output
baudrate_outputs g = sent g.hci_update_baud_rate ∷ set_speed g.termios_baudrate ∷ []

abbrev pub scopcm_outputs : Globals → List Output
scopcm_outputs g = sent g.hci_write_sco_pcm_int ∷ sent g.hci_write_pcm_data_format ∷ []

abbrev pub enable_hci_outputs : Bool → List Output
enable_hci_outputs has_discipline =
    set_discipline 15 ∷ (if has_discipline then set_protocol 0 ∷ [] else [])

abbrev pub has_baudrate : Globals → Bool
has_baudrate g = ltb 0 g.termios_baudrate

abbrev pub has_hcd : Globals → Bool
has_hcd g = is_positive g.hcdfile_fd

-- The commands behind the firmware, each under its option.
abbrev pub option_outputs : Bool → Globals → List Output
option_outputs has_discipline g =
    (if has_baudrate g then baudrate_outputs g else [])
    ++ ((if g.bdaddr_flag then sent g.hci_write_bd_addr ∷ [] else [])
        ++ ((if g.enable_lpm then sent hci_write_sleep_mode ∷ [] else [])
            ++ ((if g.scopcm then scopcm_outputs g else [])
                ++ ((if g.i2s then sent g.hci_write_i2spcm_interface_param ∷ [] else [])
                    ++ (if g.enable_hci then enable_hci_outputs has_discipline else [])))))

-- All that the program does, in its order.
abbrev pub script : Bool → Globals → List Record → List Output
script has_discipline g records =
    uart_outputs
    ++ (reset_outputs
        ++ ((if g.use_baudrate_for_download && has_baudrate g then baudrate_outputs g else [])
            ++ ((if has_hcd g then patchram_outputs g records else [])
                ++ option_outputs has_discipline g)))

abbrev pub option_count : Globals → ℕ
option_count g =
    (if has_baudrate g then 1 else 0)
    + ((if g.bdaddr_flag then 1 else 0)
        + ((if g.enable_lpm then 1 else 0)
            + ((if g.scopcm then 2 else 0) + (if g.i2s then 1 else 0))))

-- The number of the commands among them.
abbrev pub command_count : Globals → List Record → ℕ
command_count g records =
    1
    + ((if g.use_baudrate_for_download && has_baudrate g then 1 else 0)
        + ((if has_hcd g then length records + 2 else 0) + option_count g))

-- One step after another, with the firmware file left alone.
Does-both :
    (h : Bytes) (m n : Cmd (Unit {0})) (k l : ℕ) (os ps : List Output)
    → Does m h h k os
    → Does n h h l ps
    → Does (m >> n) h h (k + l) (os ++ ps)
Does-both h m n k l os ps = Does-then m n h h h k l os ps

module _ (h : Bytes) where
  pub Does-init_uart : Does init_uart h h 0 uart_outputs
  unfolding init_uart
  Does-init_uart d (r ∷ replies) more rest log e w = absurd (omega arith)
  Does-init_uart d [] more rest log e w = record {
    will_send = w.will_send;
    short = w.short;
    calm = w.calm;
    size = w.size;
    file = w.file;
    readable = w.readable;
    did = simp (append_assoc, w.did);
  }

  pub Does-proc_baudrate : (g : Globals) → Does (proc_baudrate g) h h 1 (baudrate_outputs g)
  unfolding proc_baudrate
  Does-proc_baudrate g =
      Does-both h _ _ _ _ _ _ (Does-exchange g.hci_update_baud_rate)
        (Does-output (set_speed g.termios_baudrate))

  Does-proc_scopcm : (g : Globals) → Does (proc_scopcm g) h h 2 (scopcm_outputs g)
  unfolding proc_scopcm
  Does-proc_scopcm g =
      Does-both h _ _ _ _ _ _ (Does-exchange g.hci_write_sco_pcm_int)
        (Does-exchange g.hci_write_pcm_data_format)

  Does-proc_bdaddr : (g : Globals) → Does (proc_bdaddr g) h h 1 (sent g.hci_write_bd_addr ∷ [])
  unfolding proc_bdaddr
  Does-proc_bdaddr g = Does-exchange g.hci_write_bd_addr

  Does-proc_enable_lpm : Does proc_enable_lpm h h 1 (sent hci_write_sleep_mode ∷ [])
  unfolding proc_enable_lpm
  Does-proc_enable_lpm = Does-exchange hci_write_sleep_mode

  Does-proc_i2s :
      (g : Globals) → Does (proc_i2s g) h h 1 (sent g.hci_write_i2spcm_interface_param ∷ [])
  unfolding proc_i2s
  Does-proc_i2s g = Does-exchange g.hci_write_i2spcm_interface_param

  Does-proc_enable_hci :
      (has_discipline : Bool)
      → Does (proc_enable_hci has_discipline) h h 0 (enable_hci_outputs has_discipline)
  unfolding proc_enable_hci
  Does-proc_enable_hci true =
      Does-both h (output (set_discipline 15)) (output (set_protocol 0)) _ _
        (set_discipline 15 ∷ []) (set_protocol 0 ∷ []) (Does-output (set_discipline 15))
        (Does-output (set_protocol 0))
  Does-proc_enable_hci false =
      Does-both h (output (set_discipline 15)) skip _ _ (set_discipline 15 ∷ []) []
        (Does-output (set_discipline 15)) Does-skip

  pub Does-option :
      (has_discipline : Bool) (g : Globals)
      → Does
          (configure_options has_discipline g)
          h
          h
          (option_count g)
          (option_outputs has_discipline g)
  unfolding configure_options
  Does-option has_discipline g = Does-count _ h h _ _ _ (ground arith) (
      Does-both h _ _ _ _ _ _
        (Does-when_same (has_baudrate g) (proc_baudrate g) h _ _ (Does-proc_baudrate g))
        (Does-both h _ _ _ _ _ _
          (Does-when_same g.bdaddr_flag (proc_bdaddr g) h _ _ (Does-proc_bdaddr g))
          (Does-both h _ _ _ _ _ _
            (Does-when_same g.enable_lpm proc_enable_lpm h _ _ Does-proc_enable_lpm)
            (Does-both h _ _ _ _ _ _
              (Does-when_same g.scopcm (proc_scopcm g) h _ _ (Does-proc_scopcm g))
              (Does-both h _ _ _ _ _ _ (Does-when_same g.i2s (proc_i2s g) h _ _ (Does-proc_i2s g)) (
                Does-when_same g.enable_hci (proc_enable_hci has_discipline) h _ _
                  (Does-proc_enable_hci has_discipline)))))))

-- On a chip that answers each command with one event, and with a firmware file that holds
-- `records` if one was opened, `main` does what the script says, in its order, and takes one reply
-- to each command. The two extra bytes must not be waited for if there is a file.
pub configure-Does :
    (has_discipline : Bool) (g : Globals) (records : List Record)
    → (has_hcd g ≡ true → g.no2bytes ≡ true)
    → AllFit records
    → Does
        (configure has_discipline g)
        (hcd_file records)
        (if has_hcd g then [] else hcd_file records)
        (command_count g records)
        (script has_discipline g records)
unfolding configure
configure-Does has_discipline g records no2 fit =
    let file = hcd_file records in
    let left : Bytes = if has_hcd g then [] else file in
    Does-count _ file left _ _ _ (ground arith) (
      Does-then _ _ file file left _ _ _ _ (Does-init_uart file) (
        Does-then _ _ file file left _ _ _ _ Does-proc_reset (
          Does-then _ _ file file left _ _ _ _
            (Does-when_same (g.use_baudrate_for_download && has_baudrate g) (proc_baudrate g) file _
              _ (Does-proc_baudrate file g))
            (Does-then _ _ file left left _ _ _ _
              (Does-when (has_hcd g) (proc_patchram g) file [] _ _
                (λ file_there. Does-proc_patchram g records (no2 file_there) fit))
              (Does-option left has_discipline g)))))
