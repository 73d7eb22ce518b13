-- ===== src/Patchram/Always/Sends.antt =====
-- What brcm_patchram_plus/brcm_patchram_plus.c sends in every run, whatever the chip and the
-- firmware file hold.
use platform_system_bluetoot.Prelude.{
  ℕ, zero, suc, ◌+◌, ◌<◌, ◌≤◌, ◌≡◌, refl, ap, sym, ◌∙◌, not, [], ◌∷◌, ◌++◌, arith, Bytes, length,
  get_or, take, splice, length-splice, length-take,
}
use platform_system_bluetoot.Libc.Hex.{AreBytes}
use platform_system_bluetoot.Patchram.Device.{sent, Device, Run, Cmd, done, stops, ◌>>◌}
use platform_system_bluetoot.Patchram.Event.{read_event}
use platform_system_bluetoot.Patchram.Procedures.{
  is_zero, readable, read_hcd, send_record, download,
}
use platform_system_bluetoot.Patchram.Packets.{IsPacket, AllPackets}
use platform_system_bluetoot.Patchram.WellFormed.{AreBytes-splice}
use platform_system_bluetoot.Patchram.Always.{
  Always, Always-bind, Sound, output-Sound, read_event-Sound, read_hcd-Sound, when-Always, Rules,
  AlwaysSound, read_two-Sound, AreBytes-take, AreBytes-drop,
}

-- The buffer holds the head of a packet with this number of parameters.
record Headed (len : ℕ) (buffer : Bytes) : Type 0 where
  lo : ℕ
  hi : ℕ
  rest : Bytes
  starts : buffer ≡ 1 ∷ lo ∷ hi ∷ len ∷ rest
  small : len < 256

take-IsPacket :
    (len : ℕ) (buffer : Bytes)
    → Headed len buffer
    → length buffer ≡ 1024
    → IsPacket (take (len + 4) buffer)
take-IsPacket len buffer h size =
    let enough : len ≤ length h.rest = omega (arith, ap length h.starts, h.small) in
    let params = take len h.rest in
    let same : length params ≡ len = omega (arith, length-take len h.rest) in
    let four : len + 4 ≡ suc (suc (suc (suc len))) = omega arith in
    record {
      lo = h.lo;
      hi = h.hi;
      params = params;
      is_packet = rw (h.starts, four) (ap (λ n. 1 ∷ h.lo ∷ h.hi ∷ n ∷ params) (sym same));
      short = omega (arith, h.small);
    }

splice-Headed :
    (len i : ℕ) (buffer xs : Bytes)
    → Headed len buffer
    → Headed len (splice buffer (suc (suc (suc (suc i)))) xs)
splice-Headed len i buffer xs h = record {
  lo = h.lo;
  hi = h.hi;
  rest = splice h.rest i xs;
  starts = rw h.starts refl;
  small = h.small;
}

first-Headed :
    (buffer : Bytes)
    → AreBytes buffer
    → length buffer ≡ 1024
    → Headed (get_or (splice buffer 0 (1 ∷ [])) 3 0) (splice buffer 0 (1 ∷ []))
first-Headed (a ∷ b ∷ c ∷ d ∷ rest) (_, (_, (_, (small, _)))) size = record {
  lo = b;
  hi = c;
  rest = rest;
  starts = refl;
  small = small;
}
first-Headed _ small size = absurd (omega arith)

-- A device whose buffer holds such a head.
abbrev Filled : ℕ → Device → Type 0
Filled len d = Sound d × Headed len d.buffer

read_hcd-Filled :
    (k len : ℕ) (d : Device) → Filled len d → Always (Filled len) (λ _. Filled len) (read_hcd 4 k d)
unfolding read_hcd
read_hcd-Filled k len d ((log, (rx, hcd, buffer, size)), h) =
    let n = readable d.hcd_fails k d.hcd in
    ground (
      arith,
      AreBytes-drop n d.hcd hcd,
      AreBytes-splice d.buffer 4 (take n d.hcd) buffer (AreBytes-take n d.hcd hcd),
      length-splice d.buffer 4 (take n d.hcd),
      splice-Headed len 0 d.buffer (take n d.hcd) h,
    )

-- What the first run keeps is enough if it stops.
Always-weaken :
    {A B : Type 0} (P Q : Device → Type 0) (r : Run A) (f : A → Cmd B)
    → Always P (λ _. P) r
    → ((d : Device) → P d → Q d)
    → ((a : A) (d : Device) → P d → Always Q (λ _. Q) (f a d))
    → Always Q (λ _. Q) (elim r [ done a d ↦ f a d | stops why d ↦ stops why d ])
Always-weaken P Q (done a d) f h weaken next = next a d h
Always-weaken P Q (stops _ d) f h weaken next = weaken d h

send_record-Sound : (d : Device) → Sound d → AlwaysSound (send_record d)
unfolding send_record
send_record-Sound d (log, (rx, hcd, buffer, size)) =
    let filled = record d { buffer = splice d.buffer 0 (0x01 ∷ []) } in
    let len : ℕ = get_or filled.buffer 3 0 in
    let sound : Sound filled = (
      log,
      (
        rx,
        hcd,
        AreBytes-splice d.buffer 0 (0x01 ∷ []) buffer (omega arith, tt),
        length-splice d.buffer 0 (0x01 ∷ []) ∙ size,
      ),
    ) in
    Always-weaken (Filled len) Sound (read_hcd 4 len filled) _
      (read_hcd-Filled len len filled (sound, first-Headed d.buffer buffer size)) (λ _ (s, _). s)
      λ _ d1 (s1, h1).
        let packet = take (len + 4) d1.buffer in
        let d2 = record d1 { log = d1.log ++ sent packet ∷ [] } in
        let (_, (_, _, _, size1)) = s1 in
        let out : AllPackets (sent packet ∷ []) = (take-IsPacket len d1.buffer h1 size1, tt) in
        Always-bind Sound (λ _. Sound) (read_event d2) _
          (read_event-Sound d2 (output-Sound (sent packet ∷ []) d1.alarm_set d1 out s1))
          (λ _ _ s3. s3)

pub download-Sound : (rounds : ℕ) (d : Device) → Sound d → AlwaysSound (download rounds d)
unfolding download
download-Sound zero d s = s
download-Sound (suc rounds) d s =
    Always-bind Sound (λ _. Sound) (read_hcd 1 3 d) _ (read_hcd-Sound 1 3 d s)
      (λ count d1 s1.
        when-Always Sound (λ _. Sound) (not (is_zero count)) (send_record >> download rounds) d1 s1
          (Always-bind Sound (λ _. Sound) (send_record d1) (λ _. download rounds)
            (send_record-Sound d1 s1) (λ _. download-Sound rounds)))

pub rules-Sound : Rules Sound (λ _. Sound)
rules-Sound = record {
  outputs = output-Sound;
  reads_event = read_event-Sound;
  reads_two = read_two-Sound;
  downloads = λ d. download-Sound (length d.hcd + 1) d;
}
