-- ===== src/Passphrase/Strength.antt =====
-- How long a phrase is, and of which bytes.
use thimble.Base.{
  ℕ, zero, suc, ◌+◌, ◌*◌, ◌≤◌, ◌<◌, ◌≡◌, refl, Bool, true, false, ◌&&◌, ◌||◌, List, [], ◌∷◌, ◌++◌,
  leb, ltb, ◌==◌, arith, Bytes, all_of, all_of_imp, all_of-append, length, length-append,
}
use thimble.Errors.{ok}
use thimble.Passphrase.Words.{word_starts, word_ends}
use thimble.Passphrase.{
  Draw, word_count, minimum_length, entry_at, random_entry, generate_words, join_words,
  generate_from,
}

-- Every draw gives a number below its bound, as crypto/rand documents when the source can be read.
pub record Draws (draw : Draw) : Type 0 where
  pub value : ℕ → ℕ → ℕ
  pub drawn :
      (n bound : ℕ) → 1 ≤ bound → (draw n bound ≡ ok (value n bound)) × (value n bound < bound)

-- At least four small letters.
unfoldable pub is_word : Bytes → Bool
is_word w = leb 4 (length w) && all_of (λ c. leb 97 c && leb c 122) w

all_starts : all_of is_word word_starts ≡ true
unfolding all_of is_word
all_starts = refl

all_ends : all_of is_word word_ends ≡ true
unfolding all_of is_word
all_ends = refl

entry_at-all_of :
    (p : Bytes → Bool) (ws : List Bytes) (i : ℕ)
    → all_of p ws ≡ true
    → i < length ws
    → (w : Bytes) × (entry_at ws i ≡ ok w) × (p w ≡ true)
unfolding entry_at all_of
entry_at-all_of p [] i h l = absurd (omega arith)
entry_at-all_of p (w ∷ ws) zero h l = (w, refl, ground arith)
entry_at-all_of p (w ∷ ws) (suc i) h l = entry_at-all_of p ws i (ground arith) (omega arith)

random_entry-is_word :
    (draw : Draw) (n : ℕ) (ws : List Bytes)
    → Draws draw
    → all_of is_word ws ≡ true
    → 1 ≤ length ws
    → (w : Bytes) × (random_entry draw n ws ≡ ok w) × (is_word w ≡ true)
unfolding random_entry
random_entry-is_word draw n ws d h l =
    let (drawn, below) = d.drawn n (length ws) l in
    let (w, found, fine) = entry_at-all_of is_word ws (d.value n (length ws)) h below in
    (w, rw (drawn) found, fine)

abbrev pub is_letter_or_dash : ℕ → Bool
is_letter_or_dash c = (leb 97 c && leb c 122) || c == b'-'

-- At least eight small letters.
unfoldable is_compound : Bytes → Bool
is_compound w = leb 8 (length w) && all_of is_letter_or_dash w

is_compound-words :
    (v w : Bytes) → is_word v ≡ true → is_word w ≡ true → is_compound (v ++ w) ≡ true
unfolding is_word is_compound
is_compound-words v w hv hw = ground (
  arith,
  length-append v w,
  all_of-append is_letter_or_dash v w,
  all_of_imp (λ c. leb 97 c && leb c 122) is_letter_or_dash (λ c h. ground arith) v,
  all_of_imp (λ c. leb 97 c && leb c 122) is_letter_or_dash (λ c h. ground arith) w,
)

generate_words-all_of :
    (draw : Draw) (k n : ℕ)
    → Draws draw
    → (ws : List Bytes) × (generate_words draw n k ≡ ok ws)
      × (length ws ≡ k)
      × (all_of is_compound ws ≡ true)
unfolding generate_words all_of
generate_words-all_of draw zero n d = ([], refl, refl, refl)
generate_words-all_of draw (suc k) n d =
    let (left, drawn_left, fine_left) =
      random_entry-is_word draw n word_starts d all_starts (omega arith) in
    let (right, drawn_right, fine_right) =
      random_entry-is_word draw (suc n) word_ends d all_ends (omega arith) in
    let (ws, generated, count, fine) = generate_words-all_of draw k (suc (suc n)) d in
    (
      (left ++ right) ∷ ws,
      rw (generate_words, drawn_left, drawn_right, generated) refl,
      omega (arith, count),
      rw (is_compound-words left right fine_left fine_right, fine) refl,
    )

length-join_words :
    (w : Bytes) (ws : List Bytes)
    → all_of is_compound (w ∷ ws) ≡ true
    → 9 * length (w ∷ ws) ≤ length (join_words (w ∷ ws)) + 1
unfolding join_words all_of is_compound
length-join_words w [] h = ground arith
length-join_words w (v ∷ ws) h =
    ground (arith, length-append w (b'-' ∷ join_words (v ∷ ws)), length-join_words v ws)

join_words-all_of :
    (ws : List Bytes)
    → all_of is_compound ws ≡ true
    → all_of is_letter_or_dash (join_words ws) ≡ true
unfolding join_words all_of is_compound
join_words-all_of [] h = refl
join_words-all_of (w ∷ []) h = ground arith
join_words-all_of (w ∷ v ∷ ws) h = ground (
  arith,
  all_of-append is_letter_or_dash w (b'-' ∷ join_words (v ∷ ws)),
  join_words-all_of (v ∷ ws),
)

long_enough :
    (ws : List Bytes) → length ws ≡ 4 → all_of is_compound ws ≡ true → 35 ≤ length (join_words ws)
long_enough [] h f = absurd (omega (arith, h))
long_enough (w ∷ ws) h f = omega (arith, h, length-join_words w ws f)

ltb-false : (a b : ℕ) → b ≤ a → ltb a b ≡ false
ltb-false a b h = ground arith

-- When the random source can be read, a phrase is generated, of at least 35 bytes that are small
-- letters and hyphens: the check of its length never stops it.
pub generate_from-long :
    (draw : Draw) (n : ℕ)
    → Draws draw
    → (phrase : Bytes) × (generate_from draw n ≡ ok phrase)
      × (35 ≤ length phrase)
      × (all_of is_letter_or_dash phrase ≡ true)
unfolding generate_from
generate_from-long draw n d =
    let (ws, generated, count, fine) = generate_words-all_of draw word_count n d in
    let long = long_enough ws count fine in
    (
      join_words ws,
      rw
          (
            generate_from,
            generated,
            ltb-false (length (join_words ws)) minimum_length (omega (arith, long)),
          )
          refl,
      long,
      join_words-all_of ws fine,
    )
