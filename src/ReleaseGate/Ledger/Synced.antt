-- ===== src/ReleaseGate/Ledger/Synced.antt =====
-- The anchor behind an operation that returned, and the anchor that a run which was cut off leaves.
use shipcheck.Base.{
  ℕ, ◌≤◌, String, ◌≡◌, refl, sym, ap, subst, ◌∙◌, true, false, Option, none, some, List, [], ◌∷◌,
  ok, err, arith, eq_iff, eq_refl, eqb, inl, inr, ◌⊎◌,
}
use Prim.Native.String.{count}
use shipcheck.Base.Results.{◌>>=◌, Result, Result-cases, >>=-eq-ok, ok_injective}
use shipcheck.Base.Exec.{lift, >>=-ok, >>=-err}
use shipcheck.ReleaseGate.Errors.{Error}
use shipcheck.ReleaseGate.Services.{Services, IsLawful}
use shipcheck.ReleaseGate.Ledger.State.{Entry, Store, tail_sequence, tail_hash}
use shipcheck.ReleaseGate.Ledger.AnchorFile.{
  anchor_of, anchored_hash, check_anchor, parse_anchor, anchor_dict,
}
use shipcheck.ReleaseGate.Ledger.Anchor.{
  read_anchor, advance, write_anchor, update_anchor, assert_anchor, sync_anchor,
}
use shipcheck.ReleaseGate.Ledger.Effects.{sync_anchor-SameTables, assert_anchor-same}
use shipcheck.ReleaseGate.Ledger.Chain.{IsChained}

-- An anchor that was written is read back.
pub parse_anchor-anchor_dict :
    (n : ℕ) (h : String) → eqb (count h) 64 ≡ true → parse_anchor (anchor_dict n h) ≡ ok (n, h)
unfolding parse_anchor
parse_anchor-anchor_dict n h long = ground (arith)

module _ (S : Services) where
  tail_hash-count :
      IsLawful S
      → (es : List (Entry S.Bytes)) → IsChained S es
      → eqb (count (tail_hash es)) 64 ≡ true
  tail_hash-count law [] h = refl
  tail_hash-count law (e ∷ es) h =
      let (b, _, done) = >>=-eq-ok (S.canonical_json _) _ h.2 in
      subst (λ t. eqb (count t) 64 ≡ true) (ok_injective done) (law.sha256_hex-count b)

  -- the anchor names the tail
  abbrev pub IsSynced : Store S.Bytes → Type 0
  IsSynced s = anchor_of s.anchor ≡ ok (some (tail_sequence s.entries, tail_hash s.entries))

  -- the anchor names an entry, or the start
  abbrev pub IsAnchored : Store S.Bytes → Type 0
  IsAnchored s =
      (n : ℕ) × (h : String) × (anchor_of s.anchor ≡ ok (some (n, h)))
      × (n ≤ tail_sequence s.entries)
      × (h ≡ anchored_hash n s.entries)

  checked-IsAnchored :
      (s : Store S.Bytes) (c : Option (ℕ × String))
      → anchor_of s.anchor ≡ ok c
      → check_anchor s.entries c ≡ ok tt
      → IsAnchored s
  unfolding check_anchor
  checked-IsAnchored s none read h = absurd cc
  checked-IsAnchored s (some (n, g)) read h =
      (n, g, read, ground arith, ground (arith, eq_iff g (anchored_hash n s.entries)))

  assert_anchor-split :
      (s : Store S.Bytes) → (assert_anchor S s).0 ≡ (anchor_of s.anchor >>= check_anchor s.entries)
  unfolding assert_anchor
  assert_anchor-split s = elim (Result-cases (anchor_of s.anchor)) [
    | inl (e, h) ↦
        ap (λ p. p.0)
          (>>=-err (read_anchor S) (λ c. lift (check_anchor s.entries c)) (λ i. (h i, s)))
        ∙ ap (λ r. r >>= check_anchor s.entries) (sym h)
    | inr (c, h) ↦
        ap (λ p. p.0)
          (>>=-ok (read_anchor S) (λ c. lift (check_anchor s.entries c)) (λ i. (h i, s)))
        ∙ ap (λ r. r >>= check_anchor s.entries) (sym h)
  ]

  pub assert_anchor-IsAnchored : (s : Store S.Bytes) → (assert_anchor S s).0 ≡ ok tt → IsAnchored s
  assert_anchor-IsAnchored s h =
      let (c, read, checked) =
        >>=-eq-ok (anchor_of s.anchor) (check_anchor s.entries) (sym (assert_anchor-split s) ∙ h) in
      checked-IsAnchored s c read checked

  pub IsAnchored-assert_anchor : (s : Store S.Bytes) → IsAnchored s → (assert_anchor S s).0 ≡ ok tt
  unfolding check_anchor
  IsAnchored-assert_anchor s (n, g, read, le, same) =
      assert_anchor-split s
      ∙ ap (λ r. r >>= check_anchor s.entries) read
      ∙ ground (arith, eq_iff g (anchored_hash n s.entries))

  -- the anchor that a write leaves
  pub write_anchor-read :
      (s u : Store S.Bytes) (n : ℕ) (h : String)
      → eqb (count h) 64 ≡ true
      → u.anchor ≡ some (some (anchor_dict n h))
      → anchor_of u.anchor ≡ ok (some (n, h))
  unfolding anchor_of
  write_anchor-read s u n h long e =
      ap anchor_of e ∙ ap (λ r. r >>= λ a. ok (some a)) (parse_anchor-anchor_dict n h long)

  -- what `_sync_anchor_to_tail` does with an anchor that fits
  pub sync_anchor-run :
      (s : Store S.Bytes) (a : IsAnchored s)
      → sync_anchor S s
        ≡ advance S (some (a.0, a.1)) (tail_sequence s.entries) (tail_hash s.entries) false s
  unfolding sync_anchor update_anchor
  sync_anchor-run s a =
      >>=-ok (assert_anchor S)
        (λ _. update_anchor S (tail_sequence s.entries) (tail_hash s.entries) false)
        (λ i. (IsAnchored-assert_anchor s a i, assert_anchor-same S s i))
      ∙ >>=-ok (read_anchor S)
          (λ c. advance S c (tail_sequence s.entries) (tail_hash s.entries) false) (λ i. (a.2 i, s))

  -- An anchor that names the tail stays.
  pub sync_anchor-kept : (s : Store S.Bytes) → IsSynced s → sync_anchor S s ≡ (ok tt, s)
  unfolding advance
  sync_anchor-kept s h =
      sync_anchor-run s
        (tail_sequence s.entries, tail_hash s.entries, h, ground arith, ground arith)
      ∙ ground (arith, eq_refl (tail_hash s.entries))

  -- what an advance of a fitting anchor leaves
  abbrev pub Advanced : Store S.Bytes → ℕ → Result Error (Unit {0}) × Store S.Bytes → Type 0
  Advanced s n (ok _, u) =
      ((u.anchor ≡ s.anchor) × (n ≡ tail_sequence s.entries))
      ⊎ (u.anchor ≡ some (some (anchor_dict (tail_sequence s.entries) (tail_hash s.entries))))
  Advanced s n (err _, u) =
      (u.anchor ≡ s.anchor)
      ⊎ (u.anchor ≡ some (some (anchor_dict (tail_sequence s.entries) (tail_hash s.entries))))

  advance-Advanced :
      (s : Store S.Bytes) (n : ℕ) (g : String)
      → n ≤ tail_sequence s.entries
      → Advanced s n
          (advance S (some (n, g)) (tail_sequence s.entries) (tail_hash s.entries) false s)
  unfolding advance write_anchor
  advance-Advanced s n g le = ground arith

  pub sync_anchor-Advanced :
      (s : Store S.Bytes) (a : IsAnchored s) → Advanced s a.0 (sync_anchor S s)
  sync_anchor-Advanced s a =
      subst (Advanced s a.0) (sym (sync_anchor-run s a)) (advance-Advanced s a.0 a.1 a.3)

  -- An anchor that names the tail's sequence names the tail.
  pub IsAnchored-IsSynced :
      (s : Store S.Bytes) (a : IsAnchored s) → a.0 ≡ tail_sequence s.entries → IsSynced s
  IsAnchored-IsSynced s (n, g, read, le, same) h =
      read ∙ ap (λ p. ok (some p)) (λ i. (h i, same-hash i))
    where
      same-hash : g ≡ tail_hash s.entries
      same-hash = ground arith

  Advanced-IsSynced :
      IsLawful S
      → (s : Store S.Bytes) (a : IsAnchored s) → IsChained S s.entries
      → (out : Result Error (Unit {0}) × Store S.Bytes) → Advanced s a.0 out
      → out.1.entries ≡ s.entries
      → out.0 ≡ ok tt
      → IsSynced out.1
  Advanced-IsSynced law s a chained (err e, u) h same o = absurd cc
  Advanced-IsSynced law s a chained (ok v, u) (inl (kept, level)) same o =
      ap anchor_of kept
      ∙ IsAnchored-IsSynced s a level
      ∙ ap (λ es. ok (some (tail_sequence es, tail_hash es))) (sym same)
  Advanced-IsSynced law s a chained (ok v, u) (inr written) same o =
      write_anchor-read s u _ _ (tail_hash-count law s.entries chained) written
      ∙ ap (λ es. ok (some (tail_sequence es, tail_hash es))) (sym same)

  pub IsSynced-IsAnchored : (s : Store S.Bytes) → IsSynced s → IsAnchored s
  IsSynced-IsAnchored s h =
      (tail_sequence s.entries, tail_hash s.entries, h, omega arith, ground arith)

  -- An advance that raised, before or behind the replacement, leaves an anchor that fits.
  pub broken-IsAnchored :
      IsLawful S
      → (s u : Store S.Bytes) (e : Error) → IsChained S s.entries
      → (a : IsAnchored s) → Advanced s a.0 (err e, u)
      → u.entries ≡ s.entries
      → IsAnchored u
  broken-IsAnchored law s u e chained (n, g, read, le, fits) (inl kept) same = (
    n,
    g,
    ap anchor_of kept ∙ read,
    subst (λ es. n ≤ tail_sequence es) (sym same) le,
    fits ∙ ap (anchored_hash n) (sym same),
  )
  broken-IsAnchored law s u e chained a (inr written) same = IsSynced-IsAnchored u (
      write_anchor-read s u _ _ (tail_hash-count law s.entries chained) written
      ∙ ap (λ es. ok (some (tail_sequence es, tail_hash es))) (sym same))

  -- The anchor names the tail where the operation returned.
  pub sync_anchor-IsSynced :
      IsLawful S
      → (s : Store S.Bytes) → IsChained S s.entries
      → IsAnchored s
      → (sync_anchor S s).0 ≡ ok tt
      → IsSynced (sync_anchor S s).1
  sync_anchor-IsSynced law s chained a h =
      Advanced-IsSynced law s a chained (sync_anchor S s) (sync_anchor-Advanced s a)
        (sync_anchor-SameTables S s).0 h

  -- Where every write is done, a fitting anchor is advanced.
  pub sync_anchor-returns :
      (s : Store S.Bytes) → IsAnchored s → s.answers ≡ [] → (sync_anchor S s).0 ≡ ok tt
  unfolding advance write_anchor
  sync_anchor-returns s a h =
      ap (λ p. p.0) (sync_anchor-run s a)
      ∙ ground (arith, a.3, a.4, eq_iff a.1 (tail_hash s.entries))
