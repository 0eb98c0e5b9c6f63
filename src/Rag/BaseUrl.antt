-- ===== src/Rag/BaseUrl.antt =====
-- normalizeBaseUrl of both clients: a loop that takes slashes off the end of a URL.
use device_ops.Prelude.{
  ℕ, zero, suc, ◌≤◌, ◌≡◌, refl, sym, ap, ◌∙◌, Bool, true, false, Bool-cases, inl, inr, [], ◌∷◌,
  ◌++◌, append-nil, append_assoc, ◌==◌, ==_iff, length, arith,
}
use device_ops.Str.{Str}

-- !value.empty() && value.back() == '/'
abbrev pub ends_with_slash : Str → Bool
ends_with_slash [] = false
ends_with_slash (c ∷ []) = c == b'/'
ends_with_slash (c ∷ d ∷ s) = ends_with_slash (d ∷ s)

abbrev pop_back : Str → Str
pop_back [] = []
pop_back (c ∷ []) = []
pop_back (c ∷ d ∷ s) = c ∷ pop_back (d ∷ s)

-- The loop, for as many rounds as there is fuel.
unfoldable pub normalize_loop : ℕ → Str → Str
normalize_loop zero value = value
normalize_loop (suc fuel) value = elim (ends_with_slash value) [
  | true ↦ normalize_loop fuel (pop_back value)
  | false ↦ value
]

-- Each round takes a character off, so the length of the text is enough.
unfoldable pub normalize_base_url : Str → Str
normalize_base_url value = normalize_loop (length value) value

abbrev pub slashes : ℕ → Str
slashes zero = []
slashes (suc n) = b'/' ∷ slashes n

slashes-end : (n : ℕ) → slashes n ++ b'/' ∷ [] ≡ b'/' ∷ slashes n
slashes-end zero = refl
slashes-end (suc n) = ap (λ (s : Str). b'/' ∷ s) (slashes-end n)

pop_back-end : (value : Str) → ends_with_slash value ≡ true → value ≡ pop_back value ++ b'/' ∷ []
pop_back-end [] h = cc
pop_back-end (c ∷ []) h = ap (λ (d : ℕ). d ∷ []) ((==_iff c b'/').0 h)
pop_back-end (c ∷ d ∷ s) h = ap (λ (t : Str). c ∷ t) (pop_back-end (d ∷ s) h)

length-pop_back :
    (value : Str) → ends_with_slash value ≡ true → suc (length (pop_back value)) ≡ length value
length-pop_back [] h = cc
length-pop_back (c ∷ []) h = refl
length-pop_back (c ∷ d ∷ s) h = ap suc (length-pop_back (d ∷ s) h)

loop_more :
    (fuel : ℕ) (value : Str)
    → ends_with_slash value ≡ true
    → normalize_loop (suc fuel) value ≡ normalize_loop fuel (pop_back value)
unfolding normalize_loop
loop_more fuel value h = ground arith

loop_done :
    (fuel : ℕ) (value : Str)
    → ends_with_slash value ≡ false
    → normalize_loop (suc fuel) value ≡ value
unfolding normalize_loop
loop_done fuel value h = ground arith

-- The loop ends for its test, not for lack of fuel, as soon as there is fuel for every character;
-- and what it has taken off are slashes.
normalize_loop_ends :
    (fuel : ℕ) (value : Str)
    → length value ≤ fuel
    → (ends_with_slash (normalize_loop fuel value) ≡ false)
      × ((n : ℕ) × (value ≡ normalize_loop fuel value ++ slashes n))
unfolding normalize_loop
normalize_loop_ends zero [] h = (refl, (zero, refl))
normalize_loop_ends zero (c ∷ s) h = absurd (omega arith)
normalize_loop_ends (suc fuel) value h = elim (Bool-cases (ends_with_slash value)) [
  | inl more ↦
      let (done, (n, off)) =
        normalize_loop_ends fuel (pop_back value) (omega (arith, length-pop_back value more)) in
      rw (loop_more fuel value more) (
        done,
        (
          suc n,
          pop_back-end value more
              ∙ ap (λ (t : Str). t ++ b'/' ∷ []) off
              ∙ append_assoc (normalize_loop fuel (pop_back value)) (slashes n) (b'/' ∷ [])
              ∙ ap (λ (t : Str). normalize_loop fuel (pop_back value) ++ t) (slashes-end n),
        ),
      )
  | inr done ↦ rw (loop_done fuel value done) (done, (zero, sym (append-nil value)))
]

-- Any more fuel changes nothing.
normalize_loop_enough :
    (fuel : ℕ) (value : Str)
    → length value ≤ fuel
    → normalize_loop fuel value ≡ normalize_loop (length value) value
unfolding normalize_loop
normalize_loop_enough zero [] h = refl
normalize_loop_enough zero (c ∷ s) h = absurd (omega arith)
normalize_loop_enough (suc fuel) [] h = refl
normalize_loop_enough (suc fuel) (c ∷ s) h = elim (Bool-cases (ends_with_slash (c ∷ s))) [
  | inl more ↦
      let shorter = length-pop_back (c ∷ s) more in
      loop_more fuel (c ∷ s) more
      ∙ normalize_loop_enough fuel (pop_back (c ∷ s)) (omega (arith, shorter))
      ∙ ap (λ (k : ℕ). normalize_loop k (pop_back (c ∷ s))) (suc_injective shorter)
      ∙ sym (loop_more (length s) (c ∷ s) more)
  | inr done ↦ loop_done fuel (c ∷ s) done ∙ sym (loop_done (length s) (c ∷ s) done)
]
  where
    suc_injective : {m n : ℕ} → suc m ≡ suc n → m ≡ n
    suc_injective e = omega arith

-- The loop of normalizeBaseUrl ends: with any fuel from the length of the URL on it gives the same,
-- a text that does not end with a slash, and the URL is that text followed by slashes.
pub normalize_base_url_lem :
    (fuel : ℕ) (value : Str)
    → length value ≤ fuel
    → (normalize_loop fuel value ≡ normalize_base_url value)
      × (ends_with_slash (normalize_base_url value) ≡ false)
      × ((n : ℕ) × (value ≡ normalize_base_url value ++ slashes n))
unfolding normalize_base_url
normalize_base_url_lem fuel value h =
    let (done, off) = normalize_loop_ends (length value) value (omega arith) in
    (normalize_loop_enough fuel value h, done, off)
