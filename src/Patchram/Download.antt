-- ===== src/Patchram/Download.antt =====
-- What `proc_patchram` sends for a firmware file.
use platform_system_bluetoot.Prelude.{
  pos, false, ℕ, zero, suc, ◌+◌, ◌≤◌, ◌<◌, ◌≡◌, refl, ap, subst, ◌∙◌, List, [], ◌∷◌, ◌++◌, map,
  arith, Bytes, length, get_or, take, splice, min, append-nil, append_assoc, length-append,
  length-splice, take-append, drop-append, take-splice-zero, splice-nil,
}
use platform_system_bluetoot.Patchram.Device.{
  Output, sent, Device, done, Returns-bind, skip, ◌>>=◌, ◌>>◌,
}
use platform_system_bluetoot.Patchram.Event.{read_event}
use platform_system_bluetoot.Patchram.Readable.{readable_all}
use platform_system_bluetoot.Patchram.Procedures.{read_hcd, send_record, download}
use platform_system_bluetoot.Patchram.Ready.{Reply, Ready, Ends, read_event-Ready}

-- A record of a firmware file: the two bytes of an opcode, and the data.
abbrev pub Record : Type 0
Record = ℕ × ℕ × Bytes

-- The firmware file with these records: each with the length of its data before the data.
abbrev pub hcd_file : List Record → Bytes
hcd_file [] = []
hcd_file ((lo, hi, payload) ∷ records) = lo ∷ hi ∷ length payload ∷ (payload ++ hcd_file records)

abbrev pub AllFit : List Record → Type 0
AllFit [] = Unit
AllFit ((lo, hi, payload) ∷ records) = (length payload < 256) × AllFit records

-- The command packet of a record.
abbrev pub packet : Record → Output
packet (lo, hi, payload) = sent (1 ∷ lo ∷ hi ∷ length payload ∷ payload)

-- A read that the file has the bytes for.
read_hcd-done :
    (i : ℕ) (xs rest : Bytes) (d : Device) (len : ℕ)
    → d.hcd ≡ xs ++ rest
    → d.hcd_fails ≡ (λ _. false)
    → length xs ≡ len
    → i + len ≤ length d.buffer
    → read_hcd i len d ≡ done (pos len) (record d { hcd = rest; buffer = splice d.buffer i xs })
unfolding read_hcd
read_hcd-done i xs rest d len e ok l fits =
    rw
      (
        e,
        ok,
        readable_all len (xs ++ rest),
        let m : min len (length (xs ++ rest)) ≡ len = omega (arith, length-append xs rest) in m,
        ← l,
        take-append xs rest,
        drop-append xs rest,
      )
      (ground arith)

-- A read at the end of the file.
read_hcd-nil :
    (d : Device)
    → d.hcd ≡ []
    → d.hcd_fails ≡ (λ _. false)
    → 1 ≤ length d.buffer
    → read_hcd 1 3 d ≡ done (pos 0) (record d { hcd = []; buffer = splice d.buffer 1 [] })
unfolding read_hcd
read_hcd-nil d e ok fits = rw (e, ok, readable_all 3 []) (ground arith)

-- The bytes of the packet, written in the three steps of a round.
abbrev assembled : Bytes → ℕ → ℕ → Bytes → Bytes
assembled buffer lo hi payload =
    splice (splice (splice buffer 1 (lo ∷ hi ∷ length payload ∷ [])) 0 (1 ∷ [])) 4 payload

assembled-take :
    (buffer : Bytes) (lo hi : ℕ) (payload : Bytes)
    → length payload + 4 ≤ length buffer
    → take (length payload + 4) (assembled buffer lo hi payload)
      ≡ 1 ∷ lo ∷ hi ∷ length payload ∷ payload
assembled-take (a ∷ b ∷ c ∷ d ∷ buffer) lo hi payload h =
    let e : length payload + 4 ≡ suc (suc (suc (suc (length payload)))) = omega arith in
    rw e (
      ap (λ p. 1 ∷ lo ∷ hi ∷ length payload ∷ p)
        (rw splice-nil (take-splice-zero buffer payload (omega arith))))
assembled-take _ lo hi payload h = absurd (omega arith)

get_or-assembled :
    (buffer : Bytes) (lo hi len : ℕ)
    → 4 ≤ length buffer
    → get_or (splice (splice buffer 1 (lo ∷ hi ∷ len ∷ [])) 0 (1 ∷ [])) 3 0 ≡ len
get_or-assembled (a ∷ b ∷ c ∷ d ∷ buffer) lo hi len h = refl
get_or-assembled _ lo hi len h = absurd (omega arith)

-- The device when the head of a record has been read.
abbrev headed : Device → ℕ → ℕ → Bytes → Bytes → Device
headed d lo hi payload rest = record d {
  hcd = payload ++ rest;
  buffer = splice d.buffer 1 (lo ∷ hi ∷ length payload ∷ []);
}

-- The device when the packet of a record has gone out.
abbrev packet_sent : Device → ℕ → ℕ → Bytes → Bytes → Device
packet_sent d lo hi payload rest = record d {
  hcd = rest;
  buffer = assembled d.buffer lo hi payload;
  log = d.log ++ sent (take (length payload + 4) (assembled d.buffer lo hi payload)) ∷ [];
}

-- The body of the loop writes the packet, and takes a reply.
send_record-packet :
    (lo hi : ℕ) (payload rest : Bytes) (d : Device)
    → length payload < 256
    → length d.buffer ≡ 1024
    → d.hcd_fails ≡ (λ _. false)
    → send_record (headed d lo hi payload rest)
      ≡ (read_event >> skip) (packet_sent d lo hi payload rest)
unfolding send_record
send_record-packet lo hi payload rest d small size ok =
    let head = lo ∷ hi ∷ length payload ∷ [] in
    let filled = splice (splice d.buffer 1 head) 0 (1 ∷ []) in
    let d2 = record d { hcd = payload ++ rest; buffer = filled } in
    let len = get_or-assembled d.buffer lo hi (length payload) (omega arith) in
    rw (
      len,
      ◌>>=◌,
      read_hcd-done 4 payload rest d2 (length payload) refl ok refl (
          omega (
            arith,
            length-splice (splice d.buffer 1 head) 0 (1 ∷ []),
            length-splice d.buffer 1 head,
          )),
      ◌>>=◌,
      len,
    )

length-assembled :
    (buffer : Bytes) (lo hi : ℕ) (payload : Bytes)
    → length (assembled buffer lo hi payload) ≡ length buffer
length-assembled buffer lo hi payload = simp length-splice

download-end :
    (rounds : ℕ) (d d1 : Device)
    → read_hcd 1 3 d ≡ done (pos 0) d1
    → download (suc rounds) d ≡ done tt d1
unfolding download
download-end rounds d d1 e = rw (◌>>=◌, e)

download-more :
    (rounds : ℕ) (d d1 : Device)
    → read_hcd 1 3 d ≡ done (pos 3) d1
    → download (suc rounds) d ≡ (send_record >> download rounds) d1
unfolding download
download-more rounds d d1 e = rw (◌>>=◌, e)

-- The head of a record is read, the packet of the record goes out and a reply is taken.
send_record-Ends :
    (lo hi : ℕ) (payload rest : Bytes) {r : Reply} {replies : List Reply} {left : Bytes}
    {log : List Output} (d : Device)
    → length payload < 256
    → Ready d (lo ∷ hi ∷ length payload ∷ (payload ++ rest)) (r ∷ replies) left log
    → Ends rest replies left
        (log ++ packet (lo, hi, payload) ∷ [])
        (send_record (headed d lo hi payload rest))
send_record-Ends lo hi payload rest {replies} {left} {log} d small w =
    let d' = packet_sent d lo hi payload rest in
    let P : (A : Type 0) → A → Device → Type 0 =
      λ A _ d2. Ready d2 rest replies left (log ++ packet (lo, hi, payload) ∷ []) in
    rw (send_record-packet lo hi payload rest d small w.size w.readable) (
      Returns-bind (P ℕ) (P Unit) (read_event d') (λ _. skip)
        (read_event-Ready d' (record {
          will_send = w.will_send;
          short = w.short;
          calm = w.calm;
          size = length-assembled d.buffer lo hi payload ∙ w.size;
          file = refl;
          readable = w.readable;
          did =
              ap (λ l. l ++ sent (take (length payload + 4) d'.buffer) ∷ []) w.did
              ∙ ap (λ p. log ++ sent p ∷ [])
                  (assembled-take d.buffer lo hi payload (omega (arith, w.size)));
        }))
        (λ _ d2 w2. w2))

-- With more rounds than records the loop ends at the end of the file. For each record its packet
-- was sent, in order, and one reply was taken.
pub download-Ends :
    (records : List Record) (replies more : List Reply) {rest : Bytes} {log : List Output}
    (rounds : ℕ) (d : Device)
    → length records < rounds
    → length replies ≡ length records
    → AllFit records
    → Ready d (hcd_file records) (replies ++ more) rest log
    → Ends [] more rest (log ++ map packet records) (download rounds d)
download-Ends records replies more zero d enough same fit w = absurd (omega arith)
download-Ends [] (r ∷ replies) more (suc rounds) d enough same fit w = absurd (omega arith)
download-Ends (r ∷ records) [] more (suc rounds) d enough same fit w = absurd (omega arith)
download-Ends [] [] more {log} (suc rounds) d enough same fit w =
    rw
      (
        download-end rounds d _ (read_hcd-nil d w.file w.readable (omega (arith, w.size))),
        append-nil log,
        splice-nil,
      )
      (record {
        will_send = w.will_send;
        short = w.short;
        calm = w.calm;
        size = w.size;
        file = refl;
        readable = w.readable;
        did = w.did;
      })
download-Ends (r ∷ records) (q ∷ replies) more {rest} {log} (suc rounds) d enough same fit w =
    let (lo, hi, payload) = r in
    let d1 = headed d lo hi payload (hcd_file records) in
    let next = log ++ packet r ∷ [] in
    rw
      (download-more rounds d d1 (
        read_hcd-done 1 (lo ∷ hi ∷ length payload ∷ []) (payload ++ hcd_file records) d 3 w.file
          w.readable refl (omega (arith, w.size))))
      (Returns-bind (λ _ d2. Ready d2 (hcd_file records) (replies ++ more) rest next)
        (λ _ d2. Ready d2 [] more rest (log ++ map packet (r ∷ records))) (send_record d1)
        (λ _. download rounds) (send_record-Ends lo hi payload (hcd_file records) d fit.0 w)
        λ _ d2 w2.
          subst (λ l. Ends [] more rest l (download rounds d2))
            (append_assoc log (packet r ∷ []) (map packet records))
            (download-Ends records replies more rounds d2 (omega arith) (omega arith) fit.1 w2))
