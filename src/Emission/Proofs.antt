-- ===== src/Emission/Proofs.antt =====
-- `validateWorkProof` (packages/node/src/kernel/emission-witness.ts) on lists of UTF-16 code units.
use pando.Common.{
  ℕ, suc, Bool, true, false, not, ◌&&◌, ◌||◌, Option, none, some, List, [], ◌∷◌, length, ltb, leb,
  ◌==◌, if◌then◌else◌,
}
use mathlib.Core.List.{reverse}

-- what `trim` removes
abbrev pub is_space : ℕ → Bool
is_space c =
    leb 9 c && leb c 13
    || c == 32
    || c == 160
    || c == 5760
    || leb 8192 c && leb c 8202
    || c == 8232
    || c == 8233
    || c == 8239
    || c == 8287
    || c == 12288
    || c == 65279

unfoldable pub trim_start : List ℕ → List ℕ
trim_start [] = []
trim_start (c ∷ cs) = if is_space c then trim_start cs else c ∷ cs

unfoldable pub trim : List ℕ → List ℕ
unfolding trim_start
trim cs = reverse (trim_start (reverse (trim_start cs)))

-- [0-9a-f] with the flag `i`
abbrev pub is_hex : ℕ → Bool
is_hex c = leb b'0' c && leb c b'9' || leb b'a' c && leb c b'f' || leb b'A' c && leb c b'F'

abbrev pub is_digit : ℕ → Bool
is_digit c = leb b'0' c && leb c b'9'

-- /[0-9a-f]{8,}/i, with the length of the run that ends here
unfoldable pub has_hex_run : ℕ → List ℕ → Bool
has_hex_run run [] = leb 8 run
has_hex_run run (c ∷ cs) =
    let longer = has_hex_run (if is_hex c then suc run else 0) cs in
    if leb 8 run then true else longer

-- /^uptime epoch \d+/: the prefix, then a digit
unfoldable pub starts_with_digit : List ℕ → List ℕ → Bool
starts_with_digit [] [] = false
starts_with_digit [] (c ∷ cs) = is_digit c
starts_with_digit (p ∷ ps) [] = false
starts_with_digit (p ∷ ps) (c ∷ cs) = p == c && starts_with_digit ps cs

-- "uptime epoch "
abbrev pub uptime_prefix : List ℕ
uptime_prefix =
    b'u' ∷ b'p' ∷ b't' ∷ b'i' ∷ b'm' ∷ b'e' ∷ 32 ∷ b'e' ∷ b'p' ∷ b'o' ∷ b'c' ∷ b'h' ∷ 32 ∷ []

pub data ProofError : Type 0 where
  empty_proof short_proof no_work_id : ProofError

unfoldable pub validate_work_proof : List ℕ → Option ProofError
unfolding trim has_hex_run starts_with_digit
validate_work_proof proof =
    if length (trim proof) == 0
    then some empty_proof
    else if ltb (length (trim proof)) 8
    then some short_proof
    else if not (has_hex_run 0 proof) && not (starts_with_digit uptime_prefix proof)
    then some no_work_id
    else none
