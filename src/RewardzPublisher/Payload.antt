-- ===== src/RewardzPublisher/Payload.antt =====
-- src/rewardz_publisher.rs: the data of the instruction that sets the rewardz root.
use keeper_bot.Base.{
  ℕ, zero, suc, ◌+◌, ◌*◌, ◌%◌, ◌<◌, ◌^◌, ◌≡◌, refl, sym, ◌∙◌, ap, some, List, [], ◌∷◌, ◌++◌, Bytes,
  to_le_bytes, from_le_bytes, length, take, drop, get_elem?, All, length-append, take-append,
  drop-append, drop-drop, length-to_le_bytes, from_le_bytes-to_le_bytes, arith,
}
use keeper_bot.Merkle.{Hash}
use keeper_bot.RewardzPublisher.{RewardzApi, concat_entries, set_rewardz_root_data}

length-concat_entries :
    (entries : List Bytes)
    → All (λ entry. length entry ≡ 32) entries
    → length (concat_entries entries) ≡ 32 * length entries
unfolding concat_entries
length-concat_entries [] sized = refl
length-concat_entries (entry ∷ entries) (l, sized) =
    omega (arith, length-append entry (concat_entries entries), length-concat_entries entries sized)

-- The entry at a position of the concatenation.
slice-concat_entries :
    (entries : List Bytes) (i : ℕ) (entry : Bytes)
    → All (λ entry. length entry ≡ 32) entries
    → get_elem? entries i ≡ some entry
    → take 32 (drop (32 * i) (concat_entries entries)) ≡ entry
unfolding concat_entries
slice-concat_entries [] i entry sized at = cc
slice-concat_entries (e ∷ es) zero entry (l, sized) at =
    take-append e (concat_entries es) 32 l ∙ ground (arith)
slice-concat_entries (e ∷ es) (suc i) entry (l, sized) at =
    ap (take 32) (sym (drop-drop 32 (32 * i) (32 * suc i) (e ++ concat_entries es) (omega arith)))
    ∙ ap (λ b. take 32 (drop (32 * i) b)) (drop-append e (concat_entries es) 32 l)
    ∙ slice-concat_entries es i entry sized at

module _ (api : RewardzApi) where
  -- The parts of the instruction data, as the on-chain program reads them: a byte for the
  -- instruction, 32 bytes of root, 8 bytes of epoch, 16 bytes of total, a byte that counts the
  -- deny list, 58 in all, and 32 bytes for each entry of the list, if the list has fewer than 256.
  pub set_rewardz_root_data_parts :
      (root : Hash) (epoch total : ℕ) (deny_list : List Bytes)
      → length root ≡ 32
      → epoch < 256 ^ 8
      → total < 256 ^ 16
      → length deny_list < 256
      → All (λ entry. length entry ≡ 32) deny_list
      → (length (set_rewardz_root_data api root epoch total deny_list) ≡ 58 + 32 * length deny_list)
        × (take 32 (drop 1 (set_rewardz_root_data api root epoch total deny_list)) ≡ root)
        × (from_le_bytes (take 8 (drop 33 (set_rewardz_root_data api root epoch total deny_list)))
            ≡ epoch)
        × (from_le_bytes (take 16 (drop 41 (set_rewardz_root_data api root epoch total deny_list)))
            ≡ total)
        × (get_elem? (drop 57 (set_rewardz_root_data api root epoch total deny_list)) 0
            ≡ some (length deny_list))
  unfolding set_rewardz_root_data
  set_rewardz_root_data_parts root epoch total deny_list l e t few sized =
      let epoch_le = to_le_bytes 8 epoch in
      let total_le = to_le_bytes 16 total in
      let deny = length deny_list % 2 ^ 8 ∷ concat_entries deny_list in
      let past_root = drop-append root (epoch_le ++ (total_le ++ deny)) 32 l in
      let past_epoch = drop-append epoch_le (total_le ++ deny) 8 (length-to_le_bytes 8 epoch) in
      let past_total = drop-append total_le deny 16 (length-to_le_bytes 16 total) in
      let bytes = root ++ (epoch_le ++ (total_le ++ deny)) in
      let at_total = sym (drop-drop 32 8 40 bytes refl) ∙ ap (drop 8) past_root ∙ past_epoch in
      let at_deny = sym (drop-drop 40 16 56 bytes refl) ∙ ap (drop 16) at_total ∙ past_total in
      (
        omega (
          arith,
          length-append root (epoch_le ++ (total_le ++ deny)),
          length-append epoch_le (total_le ++ deny),
          length-append total_le deny,
          length-to_le_bytes 8 epoch,
          length-to_le_bytes 16 total,
          length-concat_entries deny_list sized,
        ),
        take-append root (epoch_le ++ (total_le ++ deny)) 32 l,
        ap (λ b. from_le_bytes (take 8 b)) past_root
            ∙ ap from_le_bytes
                (take-append epoch_le (total_le ++ deny) 8 (length-to_le_bytes 8 epoch))
            ∙ from_le_bytes-to_le_bytes 8 epoch e,
        ap (λ b. from_le_bytes (take 16 b)) at_total
            ∙ ap from_le_bytes (take-append total_le deny 16 (length-to_le_bytes 16 total))
            ∙ from_le_bytes-to_le_bytes 16 total t,
        ap (λ b. get_elem? b 0) at_deny ∙ ap some (omega arith),
      )

  -- The entry at any place of the deny list is the 32 bytes at that place after the header.
  set_rewardz_root_data_deny_list :
      (root : Hash) (epoch total : ℕ) (deny_list : List Bytes) (i : ℕ) (entry : Bytes)
      → length root ≡ 32
      → All (λ entry. length entry ≡ 32) deny_list
      → get_elem? deny_list i ≡ some entry
      → take 32 (drop (58 + 32 * i) (set_rewardz_root_data api root epoch total deny_list)) ≡ entry
  unfolding set_rewardz_root_data
  set_rewardz_root_data_deny_list root epoch total deny_list i entry l sized at =
      let epoch_le = to_le_bytes 8 epoch in
      let total_le = to_le_bytes 16 total in
      let deny = length deny_list % 2 ^ 8 ∷ concat_entries deny_list in
      let bytes = set_rewardz_root_data api root epoch total deny_list in
      let at_epoch = drop-append root (epoch_le ++ (total_le ++ deny)) 32 l in
      let at_total =
        sym (drop-drop 33 8 41 bytes refl)
        ∙ ap (drop 8) at_epoch
        ∙ drop-append epoch_le (total_le ++ deny) 8 (length-to_le_bytes 8 epoch) in
      let at_deny =
        sym (drop-drop 41 16 57 bytes refl)
        ∙ ap (drop 16) at_total
        ∙ drop-append total_le deny 16 (length-to_le_bytes 16 total) in
      let at_entries = sym (drop-drop 57 1 58 bytes refl) ∙ ap (drop 1) at_deny in
      ap (take 32)
        (sym (drop-drop 58 (32 * i) (58 + 32 * i) bytes refl) ∙ ap (drop (32 * i)) at_entries)
      ∙ slice-concat_entries deny_list i entry sized at
