-- ===== src/Patchram/Addresses.antt =====
-- `parse_bdaddr` of brcm_patchram_plus/brcm_patchram_plus.c.
use platform_system_bluetoot.Prelude.{
  ℕ, zero, suc, ◌%◌, ◌≤◌, ◌<◌, ◌≡◌, refl, ap, ◌∙◌, true, List, some, [], ◌∷◌, arith, Bytes, length,
  splice, map,
}
use platform_system_bluetoot.Libc.Hex.{AreBytes, print_text, scan_hex-print_bytes}
use platform_system_bluetoot.Libc.Scan.{scan_hex, take_sign, take_prefix, skip_spaces, scan_row}
use platform_system_bluetoot.Libc.Rows.{scan_row-none, scan_row-last, scan_row-more}
use platform_system_bluetoot.Patchram.Globals.{Globals}
use platform_system_bluetoot.Patchram.Options.{Parsed, returned, assign_down, parse_bdaddr}

-- `sscanf` assigns each of the bytes.
scan_row-print_text :
    (n : ℕ) (bs : Bytes)
    → length bs ≤ n
    → AreBytes bs
    → scan_row (scan_hex 2) b':' n (print_text bs []) ≡ bs
scan_row-print_text zero [] h all = unfold scan_row in refl
scan_row-print_text zero (b ∷ bs) h all = absurd (omega arith)
scan_row-print_text (suc n) [] h all =
    scan_row-none (scan_hex 2) b':' n [] (unfold scan_hex take_sign take_prefix skip_spaces in refl)
scan_row-print_text (suc n) (b ∷ []) h all =
    scan_row-last (scan_hex 2) b':' n (print_text (b ∷ []) []) b
      (scan_hex-print_bytes b [] [] all ∙ ap (λ v. some (v, [])) (omega arith))
scan_row-print_text (suc n) (b ∷ b' ∷ bs) h (small, all) =
    let left = print_text (b' ∷ bs) [] in
    scan_row-more (scan_hex 2) b':' n (print_text (b ∷ b' ∷ bs) []) b left refl (
      scan_hex-print_bytes b [] (b':' ∷ left) (small, tt)
      ∙ ap (λ v. some (v, b':' ∷ left)) (omega arith))
    ∙ ap (◌∷◌ b) (scan_row-print_text n (b' ∷ bs) (omega arith) all)

map-byte : (bs : Bytes) → AreBytes bs → map (λ v. v % 256) bs ≡ bs
map-byte [] all = refl
map-byte (b ∷ bs) (small, all) =
    ap (λ v. v ∷ map (λ w. w % 256) bs) (omega arith) ∙ ap (◌∷◌ b) (map-byte bs all)

-- What the command holds once the values `vs` were assigned.
abbrev stored : List ℕ → List ℕ → Globals → Parsed
stored stack vs g = returned 0 (record g {
  hci_write_bd_addr = splice g.hci_write_bd_addr 4 (map (λ v. v % 256) (assign_down 5 vs stack));
  bdaddr_flag = true;
})

parse_bdaddr-stored :
    (stack : List ℕ) (bs : Bytes) (g : Globals)
    → length bs ≤ 6
    → AreBytes bs
    → parse_bdaddr stack (print_text bs []) g ≡ stored stack bs g
unfolding parse_bdaddr
parse_bdaddr-stored stack bs g h all = ap (λ vs. stored stack vs g) (scan_row-print_text 6 bs h all)

-- For every address of six bytes, parse_bdaddr reads back what it is printed as, with colons and
-- the highest byte first: it stores the lowest byte first in the command, whatever was on the stack.
pub parse_bdaddr-print_text :
    (stack : List ℕ) (g : Globals) (b0 b1 b2 b3 b4 b5 : ℕ)
    → length stack ≡ 6
    → AreBytes (b5 ∷ b4 ∷ b3 ∷ b2 ∷ b1 ∷ b0 ∷ [])
    → parse_bdaddr stack (print_text (b5 ∷ b4 ∷ b3 ∷ b2 ∷ b1 ∷ b0 ∷ []) []) g
      ≡ returned 0 (record g {
        hci_write_bd_addr = splice g.hci_write_bd_addr 4 (b0 ∷ b1 ∷ b2 ∷ b3 ∷ b4 ∷ b5 ∷ []);
        bdaddr_flag = true;
      })
unfolding assign_down
parse_bdaddr-print_text (s0 ∷ s1 ∷ s2 ∷ s3 ∷ s4 ∷ s5 ∷ []) g b0 b1 b2 b3 b4 b5 size all =
    let bs = b5 ∷ b4 ∷ b3 ∷ b2 ∷ b1 ∷ b0 ∷ [] in
    let (h5, (h4, (h3, (h2, (h1, (h0, _)))))) = all in
    parse_bdaddr-stored (s0 ∷ s1 ∷ s2 ∷ s3 ∷ s4 ∷ s5 ∷ []) bs g (omega arith) all
    ∙ ap
        (λ xs.
          returned 0
            (record g { hci_write_bd_addr = splice g.hci_write_bd_addr 4 xs; bdaddr_flag = true }))
        (map-byte (b0 ∷ b1 ∷ b2 ∷ b3 ∷ b4 ∷ b5 ∷ []) (h0, (h1, (h2, (h3, (h4, (h5, tt)))))))
parse_bdaddr-print_text stack g b0 b1 b2 b3 b4 b5 size all = absurd (omega arith)

first-kept :
    (bs : List ℕ) (s0 s1 s2 s3 s4 s5 : ℕ)
    → length bs < 6
    → (rest : List ℕ) × (assign_down 5 bs (s0 ∷ s1 ∷ s2 ∷ s3 ∷ s4 ∷ s5 ∷ []) ≡ s0 ∷ rest)
unfolding assign_down
first-kept [] s0 s1 s2 s3 s4 s5 h = (_, refl)
first-kept (_ ∷ []) s0 s1 s2 s3 s4 s5 h = (_, refl)
first-kept (_ ∷ _ ∷ []) s0 s1 s2 s3 s4 s5 h = (_, refl)
first-kept (_ ∷ _ ∷ _ ∷ []) s0 s1 s2 s3 s4 s5 h = (_, refl)
first-kept (_ ∷ _ ∷ _ ∷ _ ∷ []) s0 s1 s2 s3 s4 s5 h = (_, refl)
first-kept (_ ∷ _ ∷ _ ∷ _ ∷ _ ∷ []) s0 s1 s2 s3 s4 s5 h = (_, refl)
first-kept (_ ∷ _ ∷ _ ∷ _ ∷ _ ∷ _ ∷ bs) s0 s1 s2 s3 s4 s5 h = absurd (omega arith)

-- For a printed address of fewer than six bytes, parse_bdaddr returns 0 as well, and the lowest byte
-- of the address in the command is what was on the stack.
pub parse_bdaddr-Uninitialised :
    (s0 s1 s2 s3 s4 s5 : ℕ) (g : Globals) (bs : Bytes)
    → length bs < 6
    → AreBytes bs
    → (rest : Bytes) × (parse_bdaddr (s0 ∷ s1 ∷ s2 ∷ s3 ∷ s4 ∷ s5 ∷ []) (print_text bs []) g
        ≡ returned 0 (record g {
          hci_write_bd_addr = splice g.hci_write_bd_addr 4 (s0 % 256 ∷ rest);
          bdaddr_flag = true;
        }))
parse_bdaddr-Uninitialised s0 s1 s2 s3 s4 s5 g bs short all =
    let (rest, e) = first-kept bs s0 s1 s2 s3 s4 s5 short in
    (
      map (λ v. v % 256) rest,
      parse_bdaddr-stored (s0 ∷ s1 ∷ s2 ∷ s3 ∷ s4 ∷ s5 ∷ []) bs g (omega arith) all
          ∙ ap
              (λ xs. returned 0 (record g {
                hci_write_bd_addr = splice g.hci_write_bd_addr 4 (map (λ v. v % 256) xs);
                bdaddr_flag = true;
              }))
              e,
    )
