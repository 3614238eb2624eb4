-- ===== src/ReleaseGate/Engine/Waived.antt =====
-- What waivers cannot do.
use shipcheck.Base.{
  String, ◌==◌, ◌≡◌, refl, sym, ap, subst, ◌∙◌, Bool, true, false, ◌&&◌, ◌||◌, Option, none, some,
  List, [], ◌∷◌, ◌++◌, any, map, All, All-append, arith, eq_iff, Bool-cases, inl, inr,
}
use shipcheck.Base.Lists.{any-append}
use shipcheck.Base.Texts.{contains}
use shipcheck.ReleaseGate.Engine.{
  unused_gate, unused_ids, all_applied, GateResult, waivers_gate, Waiver, Context, unwaivable,
  outcome, find_waiver, objection, sort_out, place_waiver, waive_by, waive, waive_all,
  apply_waivers,
}

-- a failure whose reason no waiver may cover
abbrev pub is_hard : GateResult → Bool
is_hard g = (g.status == "fail") && contains g.reason_code unwaivable

abbrev pub is_failed : GateResult → Bool
is_failed g = g.status == "fail"

-- a waiver of another reason
abbrev Waivable : Waiver → Type 0
Waivable w = contains w.reason_code unwaivable ≡ false

objection-Waivable :
    (c : Context) (valid : List Waiver) (w : Waiver) → objection c valid w ≡ none → Waivable w
unfolding objection
objection-Waivable c valid w h = ground arith

place_waiver-Waivable :
    (c : Context) (w : Waiver) (valid : List Waiver) (messages : List String) (o : Option String)
    → objection c valid w ≡ o
    → All Waivable valid
    → All Waivable (place_waiver w valid messages o).0
place_waiver-Waivable c w valid messages none h good =
    All-append Waivable valid (w ∷ []) good (objection-Waivable c valid w h, tt)
place_waiver-Waivable c w valid messages (some reason) h good = good

sort_out-Waivable :
    (c : Context) (ws valid : List Waiver) (messages : List String)
    → All Waivable valid
    → All Waivable (sort_out c ws valid messages).0
unfolding sort_out
sort_out-Waivable c [] valid messages h = h
sort_out-Waivable c (w ∷ ws) valid messages h =
    sort_out-Waivable c ws _ _
      (place_waiver-Waivable c w valid messages (objection c valid w) refl h)

-- Waivers whose reasons are none of some codes leave the failures of these codes.
module _ (codes : List String) where
  abbrev Spares : Waiver → Type 0
  Spares w = contains w.reason_code codes ≡ false

  abbrev is_listed : GateResult → Bool
  is_listed g = is_failed g && contains g.reason_code codes

  find_waiver-listed :
      (gate code : String) (valid : List Waiver)
      → All Spares valid
      → contains code codes ≡ true
      → find_waiver gate code valid ≡ none
  unfolding find_waiver
  find_waiver-listed gate code [] h hard = refl
  find_waiver-listed gate code (w ∷ ws) h hard = elim (Bool-cases (w.reason_code == code)) [
    | inr k ↦ ground (arith, k, find_waiver-listed gate code ws h.1 hard)
    | inl k ↦
        let same : w.reason_code ≡ code = ground (arith, k, eq_iff w.reason_code code) in
        absurd (clash (subst (λ t. contains t codes ≡ false) same h.0) hard)
  ]
    where
      clash : {b : Bool} → b ≡ false → b ≡ true → ⊥
      clash f t = cc

  waive-listed :
      (valid : List Waiver) (g : GateResult)
      → All Spares valid
      → is_listed g ≡ true
      → is_failed (waive valid g) ≡ true
  unfolding waive
  waive-listed valid g h hard = elim (Bool-cases (is_failed g)) [
    | inr k ↦ absurd (ground (arith, k, hard))
    | inl k ↦ elim (Bool-cases (contains g.reason_code codes)) [
      | inr l ↦ absurd (ground (arith, l, hard))
      | inl l ↦
          ap (λ o. is_failed (waive_by g o)) (find_waiver-listed g.gate g.reason_code valid h l) ∙ k
    ]
  ]

  map-waive-listed :
      (valid : List Waiver) (gates : List GateResult)
      → All Spares valid
      → any is_listed gates ≡ true
      → any is_failed (map (waive valid) gates) ≡ true
  map-waive-listed valid [] h hard = hard
  map-waive-listed valid (g ∷ gates) h hard = elim (Bool-cases (is_listed g)) [
    | inl k ↦ ap (λ b. b || any is_failed (map (waive valid) gates)) (waive-listed valid g h k)
    | inr k ↦
        let rest : any is_listed gates ≡ true = sym (ap (λ b. b || any is_listed gates) k) ∙ hard in
        or-true (is_failed (waive valid g)) (map-waive-listed valid gates h rest)
  ]
    where
      or-true : (a : Bool) {b : Bool} → b ≡ true → (a || b) ≡ true
      or-true true h = refl
      or-true false h = h

outcome-failed : (gates : List GateResult) → any is_failed gates ≡ true → outcome gates ≡ "BLOCKED"
unfolding outcome
outcome-failed gates h = rw h refl

any-failed-append :
    (xs ys : List GateResult) → any is_failed xs ≡ true → any is_failed (xs ++ ys) ≡ true
any-failed-append xs ys h = any-append is_failed xs ys ∙ ap (λ b. b || any is_failed ys) h

any-failed-last :
    (xs ys : List GateResult) → any is_failed ys ≡ true → any is_failed (xs ++ ys) ≡ true
any-failed-last xs ys h = any-append is_failed xs ys ∙ ground (arith, h)

waive_all-hard :
    (valid : List Waiver) (messages : List String) (gates : List GateResult)
    → All Waivable valid
    → any is_hard gates ≡ true
    → outcome (waive_all valid messages gates).0 ≡ "BLOCKED"
unfolding waive_all
waive_all-hard valid [] gates good h = outcome-failed (waive_all valid [] gates).0 (
    any-failed-append (map (waive valid) gates)
      (unused_gate (unused_ids valid (all_applied valid gates)))
      (map-waive-listed unwaivable valid gates good h))
waive_all-hard valid (m ∷ ms) gates good h = outcome-failed (waive_all valid (m ∷ ms) gates).0 (
    any-failed-last gates (waivers_gate "one or more waivers are invalid" "messages" (m ∷ ms) ∷ [])
      refl)

hard-failed : (gates : List GateResult) → any is_hard gates ≡ true → any is_failed gates ≡ true
hard-failed [] h = h
hard-failed (g ∷ gates) h = elim (Bool-cases (is_failed g)) [
  | inl k ↦ ap (λ b. b || any is_failed gates) k
  | inr k ↦
      let rest =
        sym (ap (λ b. (b && contains g.reason_code unwaivable) || any is_hard gates) k) ∙ h in
      ap (λ b. b || any is_failed gates) k ∙ hard-failed gates rest
]

-- A failed gate whose reason is one that is never waived blocks the release, whatever waivers there are
-- and whatever the policy lets be waived.
pub apply_waivers-hard :
    (c : Context) (gates : List GateResult) (waivers : List Waiver)
    → any is_hard gates ≡ true
    → outcome (apply_waivers c gates waivers).0 ≡ "BLOCKED"
unfolding apply_waivers
apply_waivers-hard c gates [] h = outcome-failed gates (hard-failed gates h)
apply_waivers-hard c gates (w ∷ ws) h =
    waive_all-hard (sort_out c (w ∷ ws) [] []).0 (sort_out c (w ∷ ws) [] []).1 gates
      (sort_out-Waivable c (w ∷ ws) [] [] tt) h
