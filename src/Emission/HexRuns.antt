-- ===== src/Emission/HexRuns.antt =====
-- `validateWorkProof` (packages/node/src/kernel/emission-witness.ts) against a description of the
-- accepted proofs.
use pando.Common.{
  ℕ, suc, ◌+◌, ◌≤◌, ◌≡◌, refl, sym, ap, ◌∙◌, ◌↔◌, ◌⊎◌, inl, inr, true, false, none, List, [], ◌∷◌,
  ◌++◌, length, length-append, ltb, leb, ◌==◌, if◌then◌else◌, Bool-cases, arith,
}
use mathlib.Core.List.{append_assoc}
use mathlib.Core.Path.{subst}
use pando.Common.Table.{Each}
use pando.Emission.Proofs.{
  is_hex, has_hex_run, trim, starts_with_digit, uptime_prefix, validate_work_proof,
}

-- eight hexadecimal digits or more in a row, somewhere
pub record HasHexRun (s : List ℕ) : Type 0 where
  pub before : List ℕ
  pub digits : List ℕ
  pub after : List ℕ
  pub split : s ≡ before ++ (digits ++ after)
  pub eight : 8 ≤ length digits
  pub hexadecimal : Each (λ c. is_hex c ≡ true) digits

-- a run with digits before it is long enough
run_of_digits :
    (run : ℕ) (digits after : List ℕ)
    → 8 ≤ run + length digits
    → Each (λ c. is_hex c ≡ true) digits
    → has_hex_run run (digits ++ after) ≡ true
unfolding has_hex_run
run_of_digits run [] [] h d = ground arith
run_of_digits run [] (c ∷ cs) h d = ground arith
run_of_digits run (x ∷ digits) after h d =
    ground (arith, run_of_digits (suc run) digits after (omega arith) d.1, d.0)

run_after :
    (run : ℕ) (before digits after : List ℕ)
    → 8 ≤ length digits
    → Each (λ c. is_hex c ≡ true) digits
    → has_hex_run run (before ++ (digits ++ after)) ≡ true
unfolding has_hex_run
run_after run [] digits after h d = run_of_digits run digits after (omega arith) d
run_after run (x ∷ before) digits after h d =
    ground (arith, run_after (if is_hex x then suc run else 0) before digits after h d)

prepend : (p s : List ℕ) → HasHexRun s → HasHexRun (p ++ s)
prepend p s h = record {
  before = p ++ h.before;
  digits = h.digits;
  after = h.after;
  split = ap (λ t. p ++ t) h.split ∙ sym (append_assoc p h.before (h.digits ++ h.after));
  eight = h.eight;
  hexadecimal = h.hexadecimal;
}

Each-snoc :
    (ds : List ℕ) (c : ℕ)
    → Each (λ d. is_hex d ≡ true) ds
    → is_hex c ≡ true
    → Each (λ d. is_hex d ≡ true) (ds ++ c ∷ [])
Each-snoc [] c h k = (k, tt)
Each-snoc (d ∷ ds) c h k = (h.0, Each-snoc ds c h.1 k)

module _ (read : List ℕ) (hex : Each (λ d. is_hex d ≡ true) read) where
  read_enough : (s : List ℕ) → leb 8 (length read) ≡ true → HasHexRun (read ++ s)
  read_enough s h = record {
    before = [];
    digits = read;
    after = s;
    split = refl;
    eight = ground arith;
    hexadecimal = hex;
  }

length_snoc : (ds : List ℕ) (c : ℕ) → length (ds ++ c ∷ []) ≡ suc (length ds)
length_snoc ds c = omega (arith, length-append ds (c ∷ []))

module _ (run c : ℕ) (s : List ℕ) (short : leb 8 run ≡ false) where
  step_yes : is_hex c ≡ true → has_hex_run run (c ∷ s) ≡ true → has_hex_run (suc run) s ≡ true
  unfolding has_hex_run
  step_yes d h = ground arith

  step_no : is_hex c ≡ false → has_hex_run run (c ∷ s) ≡ true → has_hex_run 0 s ≡ true
  unfolding has_hex_run
  step_no d h = ground arith

-- with the digits that were just read
run-HasHexRun :
    (read s : List ℕ)
    → Each (λ d. is_hex d ≡ true) read
    → has_hex_run (length read) s ≡ true
    → HasHexRun (read ++ s)
unfolding has_hex_run
run-HasHexRun read [] hex h = read_enough read hex [] h
run-HasHexRun read (c ∷ s) hex h = elim (Bool-cases (leb 8 (length read))) [
  | inl long ↦ read_enough read hex (c ∷ s) long
  | inr short ↦ elim (Bool-cases (is_hex c)) [
    | inl is_digit ↦ subst HasHexRun (append_assoc read (c ∷ []) s) (
        run-HasHexRun (read ++ c ∷ []) s (Each-snoc read c hex is_digit)
          (rw (length_snoc read c) (step_yes (length read) c s short is_digit h)))
    | inr other ↦ subst HasHexRun (append_assoc read (c ∷ []) s) (
        prepend (read ++ c ∷ []) s
          (run-HasHexRun [] s tt (step_no (length read) c s short other h)))
  ]
]

run_of_HasHexRun : (s : List ℕ) → HasHexRun s → has_hex_run 0 s ≡ true
run_of_HasHexRun s h = rw h.split (run_after 0 h.before h.digits h.after h.eight h.hexadecimal)

accepted :
    (s : List ℕ)
    → validate_work_proof s ≡ none
    → HasHexRun s ⊎ (starts_with_digit uptime_prefix s ≡ true)
unfolding validate_work_proof
accepted s h = elim (Bool-cases (has_hex_run 0 s)) [
  | inl found ↦ inl (run-HasHexRun [] s tt found)
  | inr missing ↦ inr (ground arith)
]

long_enough : (s : List ℕ) → validate_work_proof s ≡ none → 8 ≤ length (trim s)
unfolding validate_work_proof
long_enough s h = ground arith

accepts :
    (s : List ℕ)
    → 8 ≤ length (trim s)
    → (has_hex_run 0 s ≡ true) ⊎ (starts_with_digit uptime_prefix s ≡ true)
    → validate_work_proof s ≡ none
unfolding validate_work_proof
accepts s h k =
    let some_text : (length (trim s) == 0) ≡ false = ground arith in
    let long : ltb (length (trim s)) 8 ≡ false = ground arith in
    elim k [
      | inl found ↦ rw (some_text, long, found) refl
      | inr uptime ↦ rw (some_text, long, uptime) (ground arith)
    ]

-- A work proof is accepted exactly if it has eight characters or more between its leading and
-- trailing spaces, and eight hexadecimal digits or more in a row or the prefix of an uptime proof
-- with a digit after it.
pub validate_work_proof_accepts_iff :
    (s : List ℕ)
    → (validate_work_proof s ≡ none)
      ↔ ((8 ≤ length (trim s)) × (HasHexRun s ⊎ (starts_with_digit uptime_prefix s ≡ true)))
validate_work_proof_accepts_iff s = (
  (λ h. (long_enough s h, accepted s h)),
  λ h.
      accepts s h.0
        (elim h.1 [ inl found ↦ inl (run_of_HasHexRun s found) | inr uptime ↦ inr uptime ]),
)
