-- ===== src/Admission/Sas/Words.antt =====
-- The words that stand for the emojis (admission.rs: `word_for_emoji`, `sas_words`).
use nullgate.Common.{
  ℕ, zero, suc, ◌-◌, ◌<◌, ◌≡◌, refl, ap, ◌∙◌, Bool, true, false, not, ◌&&◌, some, List, [], ◌∷◌,
  ◌++◌, arith, length, get_or,
}
use nullgate.Admission.Sas.{
  sas_emoji, sas_word, Reader, refill, sas_indices, lookups, first_reader, sas_domain, sas_emojis,
  find_word, word_for_emoji, sas_words,
}
use Prim.Native.String.{String, compare}
use text.Mathlib.Text.{is_eq}
use text.Mathlib.TextPositions.{compare_refl}

abbrev absent : String → List String → Bool
absent e [] = true
absent e (x ∷ xs) = not (is_eq (compare e x)) && absent e xs

abbrev all_distinct : List String → Bool
all_distinct [] = true
all_distinct (x ∷ xs) = absent x xs && all_distinct xs

sas_emoji_distinct : all_distinct sas_emoji ≡ true
sas_emoji_distinct = refl

absent-get_or :
    (e : String) (xs : List String) (i : ℕ)
    → absent e xs ≡ true
    → i < length xs
    → is_eq (compare e (get_or xs i "")) ≡ false
absent-get_or e [] i h lt = absurd (omega arith)
absent-get_or e (x ∷ xs) zero h lt = ground arith
absent-get_or e (x ∷ xs) (suc i) h lt = absent-get_or e xs i (ground arith) (omega arith)

find_word-get_or :
    (emojis words : List String) (i : ℕ)
    → all_distinct emojis ≡ true
    → length words ≡ length emojis
    → i < length emojis
    → find_word (get_or emojis i "") emojis words ≡ some (get_or words i "")
unfolding find_word
find_word-get_or [] words i d len lt = absurd (omega arith)
find_word-get_or (e ∷ emojis) [] i d len lt = absurd (omega arith)
find_word-get_or (e ∷ emojis) (w ∷ words) zero d len lt = rw (compare_refl e) refl
find_word-get_or (e ∷ emojis) (w ∷ words) (suc i) d len lt =
    rw (absent-get_or e emojis i (ground arith) (omega arith))
      (find_word-get_or emojis words i (ground arith) (omega arith) (omega arith))

-- Every emoji of the table has its word, at the same index.
pub word_for_emoji_lem :
    (i : ℕ) → i < 64 → word_for_emoji (get_or sas_emoji i "") ≡ some (get_or sas_word i "")
unfolding word_for_emoji
word_for_emoji_lem i lt = find_word-get_or sas_emoji sas_word i sas_emoji_distinct refl lt

-- The indices of any run of the loop are below 64.
abbrev AllBelow : ℕ → List ℕ → Type 0
AllBelow n [] = Unit {0}
AllBelow n (i ∷ more) = (i < n) × AllBelow n more

sas_indices-AllBelow :
    (rounds : ℕ) (bytes : List ℕ) (s : Reader) → AllBelow 64 (sas_indices rounds bytes s)
unfolding sas_indices
sas_indices-AllBelow zero bytes s = tt
sas_indices-AllBelow (suc rounds) bytes s =
    let r : Reader = refill bytes s in
    (
      omega arith,
      sas_indices-AllBelow rounds bytes (record { acc = r.acc; nbits = r.nbits - 6; idx = r.idx }),
    )

sas_words-lookups :
    (indices : List ℕ)
    → AllBelow 64 indices
    → sas_words (lookups sas_emoji indices) ≡ lookups sas_word indices
unfolding sas_words
sas_words-lookups [] b = refl
sas_words-lookups (i ∷ more) b = rw (word_for_emoji_lem i b.0, sas_words-lookups more b.1) refl

length-sas_indices :
    (rounds : ℕ) (bytes : List ℕ) (s : Reader) → length (sas_indices rounds bytes s) ≡ rounds
unfolding sas_indices
length-sas_indices zero bytes s = refl
length-sas_indices (suc rounds) bytes s =
    let r : Reader = refill bytes s in
    ap suc
      (length-sas_indices rounds bytes (record { acc = r.acc; nbits = r.nbits - 6; idx = r.idx }))

length-lookups :
    (table : List String) (indices : List ℕ) → length (lookups table indices) ≡ length indices
length-lookups table [] = refl
length-lookups table (i ∷ more) = ap suc (length-lookups table more)

-- A text client shows seven words for the seven emojis of a session: those of the second table
-- at the indices at which the emojis stand in the first. None is unknown.
pub sas_words_lem :
    (hmac : List ℕ → List ℕ → List ℕ) (psk transcript : List ℕ)
    → let indices = sas_indices 7 (hmac psk (sas_domain ++ transcript)) first_reader in
      (length (sas_emojis hmac psk transcript) ≡ 7)
      × (sas_words (sas_emojis hmac psk transcript) ≡ lookups sas_word indices)
unfolding sas_emojis
sas_words_lem hmac psk transcript =
    let indices : List ℕ = sas_indices 7 (hmac psk (sas_domain ++ transcript)) first_reader in
    (
      length-lookups sas_emoji indices
          ∙ length-sas_indices 7 (hmac psk (sas_domain ++ transcript)) first_reader,
      sas_words-lookups indices
          (sas_indices-AllBelow 7 (hmac psk (sas_domain ++ transcript)) first_reader),
    )
