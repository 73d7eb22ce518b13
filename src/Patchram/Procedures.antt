-- ===== src/Patchram/Procedures.antt =====
-- The steps of `main`: `init_uart` and the functions `proc_…`.
use platform_system_bluetoot.Prelude.{
  ℕ, zero, suc, ◌+◌, ◌-◌, ◌^◌, Bool, not, List, [], ◌∷◌, ◌++◌, ◌==◌, ltb, if◌then◌else◌, Bytes, ℤ,
  pos, negsuc, minus_one, false, length, get_or, take, drop, splice, min,
}
use platform_system_bluetoot.Patchram.Globals.{
  Globals, hci_reset, hci_download_minidriver, hci_write_sleep_mode, b115200,
}
use platform_system_bluetoot.Patchram.Device.{
  Arrival, gets, fails, timer, flush, set_raw, set_speed, alarm, usleep, set_discipline,
  set_protocol, blocked, fault, out_of_rounds, done, stops, Cmd, ◌>>=◌, ◌>>◌, skip, output, when,
}
use platform_system_bluetoot.Patchram.Event.{hci_send_cmd, receive, read_event}

unfoldable pub init_uart : Cmd (Unit {0})
init_uart = do
  output flush
  output set_raw
  output flush
  output set_raw
  output flush
  output flush
  output (set_speed b115200)

abbrev pub set_alarm : ℕ → Cmd (Unit {0})
set_alarm seconds d =
    done tt (record d { alarm_set = not (seconds == 0); log = d.log ++ alarm seconds ∷ [] })

-- A command, and the event that answers it.
unfoldable pub exchange : Bytes → Cmd (Unit {0})
exchange cmd = do hci_send_cmd cmd; read_event; skip

unfoldable pub proc_reset : Cmd (Unit {0})
proc_reset = do hci_send_cmd hci_reset; set_alarm 4; read_event; set_alarm 0

-- One call of `read(uart_fd, &buffer[0], 2)`, whatever it returns. The timer is off.
unfoldable pub read_two_from : List Arrival → Cmd (Unit {0})
unfolding receive
read_two_from [] d =
    if length d.rx == 0 then stops blocked d else done tt (receive 0 (min 2 (length d.rx)) d)
read_two_from (gets c ∷ arrivals) d =
    if length d.rx == 0
    then stops blocked d
    else done tt (receive 0 (min 2 (min (c + 1) (length d.rx))) (record d { arrivals = arrivals }))
read_two_from (fails ∷ arrivals) d = done tt (record d { arrivals = arrivals })
read_two_from (timer ∷ arrivals) d = read_two_from arrivals d

unfoldable pub read_two : Cmd (Unit {0})
unfolding read_two_from
read_two d = read_two_from d.arrivals d

-- How many of `len` bytes a read of the firmware file gets: it stops at the end of the file, and
-- where reads fail.
unfoldable pub readable : (ℕ → Bool) → ℕ → Bytes → ℕ
readable hcd_fails zero hcd = 0
readable hcd_fails (suc len) [] = 0
readable hcd_fails (suc len) (c ∷ hcd) =
    let more = readable hcd_fails len hcd in if hcd_fails (length hcd + 1) then 0 else more + 1

-- `read(hcdfile_fd, &buffer[i], len)`: -1 if the first byte cannot be read, or else the count.
unfoldable pub read_hcd : ℕ → ℕ → Cmd ℤ
read_hcd i len d =
    let n = readable d.hcd_fails len d.hcd in
    if d.hcd_fails (length d.hcd)
    then done minus_one d
    else if ltb (length d.buffer) (i + n)
    then stops fault d
    else done (pos n) (record d { hcd = drop n d.hcd; buffer = splice d.buffer i (take n d.hcd) })

-- The body of the loop of `proc_patchram`, behind the three bytes of a record's head.
unfoldable pub send_record : Cmd (Unit {0})
send_record = do
  len ← (λ d.
      (let d' = record d { buffer = splice d.buffer 0 (0x01 ∷ []) } in
        done (get_or d'.buffer 3 0) d'))
  read_hcd 4 len
  (λ d. hci_send_cmd (take (len + 4) d.buffer) d)
  read_event
  skip

-- What `while` asks of the count: -1 goes on as well.
abbrev pub is_zero : ℤ → Bool
is_zero (pos n) = n == 0
is_zero (negsuc n) = false

-- The loop, for at most so many rounds.
unfoldable pub download : ℕ → Cmd (Unit {0})
unfolding send_record
download zero = stops out_of_rounds
download (suc rounds) = do
  count ← read_hcd 1 3
  when (not (is_zero count)) (send_record >> download rounds)

-- Each round but the last takes a byte of the file if it can be read, so that the rounds suffice.
abbrev pub download_all : Cmd (Unit {0})
download_all d = download (length d.hcd + 1) d

-- `if (tosleep) { usleep(tosleep); }`; the argument is an unsigned number of 32 bits.
abbrev pub tosleep_of : ℤ → Cmd (Unit {0})
tosleep_of (pos zero) = skip
tosleep_of (pos (suc n)) = output (usleep (suc n))
tosleep_of (negsuc n) = output (usleep (2 ^ 32 - (n + 1)))

unfoldable pub proc_patchram : Globals → Cmd (Unit {0})
proc_patchram g = do
  exchange hci_download_minidriver
  when (not g.no2bytes) read_two
  tosleep_of g.tosleep
  download_all
  when g.use_baudrate_for_download (output (set_speed b115200))
  proc_reset

unfoldable pub proc_baudrate : Globals → Cmd (Unit {0})
proc_baudrate g = do exchange g.hci_update_baud_rate; output (set_speed g.termios_baudrate)

unfoldable pub proc_bdaddr : Globals → Cmd (Unit {0})
proc_bdaddr g = exchange g.hci_write_bd_addr

unfoldable pub proc_enable_lpm : Cmd (Unit {0})
proc_enable_lpm = exchange hci_write_sleep_mode

unfoldable pub proc_scopcm : Globals → Cmd (Unit {0})
proc_scopcm g = do exchange g.hci_write_sco_pcm_int; exchange g.hci_write_pcm_data_format

unfoldable pub proc_i2s : Globals → Cmd (Unit {0})
proc_i2s g = exchange g.hci_write_i2spcm_interface_param

-- `proc_enable_hci`; the flag says whether the first call of `ioctl` succeeds. What the second one
-- returns is only printed.
unfoldable pub proc_enable_hci : Bool → Cmd (Unit {0})
proc_enable_hci has_discipline = do
  output (set_discipline 15)
  when has_discipline (output (set_protocol 0))
