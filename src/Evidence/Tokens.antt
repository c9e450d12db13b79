-- ===== src/Evidence/Tokens.antt =====
-- exam_predictor/evidence/store.py: the tokens that fence claims of a part (EvidenceStore._claim_token).
use Prim.Native.Nat.{◌/◌, ◌%◌}
use Prim.Native.Char.{Char, code, nul}
use Prim.Native.String.{◌++◌ as ◌<>◌}
use Prim.Native.String.append
use text.Mathlib.TextLemmas.{append_assoc, append_cancel_left, append-nil}
use exam_sage.Common.{
  ℕ, zero, suc, ◌+◌, ◌-◌, ◌*◌, ◌≤◌, ◌<◌, ◌≡◌, refl, sym, ap, ◌∙◌, String, false, arith, ltb, eqb,
  if◌then◌else◌, Bool-cases, inl, inr,
}

-- The decimal digit of a number below ten.
digit : ℕ → Char
digit zero = "0"
digit (suc zero) = "1"
digit (suc (suc zero)) = "2"
digit (suc (suc (suc zero))) = "3"
digit (suc (suc (suc (suc zero)))) = "4"
digit (suc (suc (suc (suc (suc zero))))) = "5"
digit (suc (suc (suc (suc (suc (suc zero)))))) = "6"
digit (suc (suc (suc (suc (suc (suc (suc zero))))))) = "7"
digit (suc (suc (suc (suc (suc (suc (suc (suc zero)))))))) = "8"
digit (suc (suc (suc (suc (suc (suc (suc (suc (suc n))))))))) = "9"

one : Char → String
one c = String.◌∷◌ c String.[]

-- Python's `str` of a number that is not negative, with a bound on the digits.
decimal_from : ℕ → ℕ → String
unfolding digit one
decimal_from zero n = one (digit n)
decimal_from (suc fuel) n =
    let front = decimal_from fuel (n / 10) in
    if ltb n 10 then one (digit n) else ◌<>◌ front (one (digit (n % 10)))

pub decimal : ℕ → String
unfolding decimal_from
decimal n = decimal_from n n

-- f"{part_id}\0{plan_generation}\0{claim_generation}"
unfoldable pub claim_identity : (part_id : String) → (plan_generation claim_generation : ℕ) → String
unfolding decimal one
claim_identity part_id plan_generation claim_generation =
    ◌<>◌ part_id
      (String.◌∷◌ nul (◌<>◌ (decimal plan_generation) (String.◌∷◌ nul (decimal claim_generation))))

-- _claim_token, under the digest of `_digest`: SHA-256 in hexadecimal.
unfoldable pub claim_token : (digest : String → String) → String → ℕ → ℕ → String
claim_token digest part_id plan_generation claim_generation =
    ◌<>◌ "evidence-claim-v1:" (digest (claim_identity part_id plan_generation claim_generation))

test_identity : claim_identity "p" 12 305 ≡ "p\012\0305"
unfolding claim_identity
test_identity = refl

-- Reading a number up to a NUL: the number, and what stands behind the NUL.
read : ℕ → String → ℕ × String
read n String.[] = (n, String.[])
read n (String.◌∷◌ c s) =
    let rest = read (n * 10 + (code c - b'0')) s in if eqb (code c) 0 then (n, s) else rest

code-digit : (d : ℕ) → d < 10 → code (digit d) ≡ d + b'0'
unfolding digit
code-digit zero h = refl
code-digit (suc zero) h = refl
code-digit (suc (suc zero)) h = refl
code-digit (suc (suc (suc zero))) h = refl
code-digit (suc (suc (suc (suc zero)))) h = refl
code-digit (suc (suc (suc (suc (suc zero))))) h = refl
code-digit (suc (suc (suc (suc (suc (suc zero)))))) h = refl
code-digit (suc (suc (suc (suc (suc (suc (suc zero))))))) h = refl
code-digit (suc (suc (suc (suc (suc (suc (suc (suc zero)))))))) h = refl
code-digit (suc (suc (suc (suc (suc (suc (suc (suc (suc n))))))))) h = omega arith

not_nul : (d : ℕ) → eqb (d + 48) 0 ≡ false
not_nul d = ground arith

add_sub : (d : ℕ) → d + 48 - 48 ≡ d
add_sub d = omega arith

read-digit : (n d : ℕ) (t : String) → d < 10 → read n (String.◌∷◌ (digit d) t) ≡ read (n * 10 + d) t
unfolding read
read-digit n d t h =
    rw (code-digit d h) (rw (not_nul d) (ap (λ k. read (n * 10 + k) t) (add_sub d)))

read-one : (n d : ℕ) (t : String) → d < 10 → read n (◌<>◌ (one (digit d)) t) ≡ read (n * 10 + d) t
unfolding one
read-one n d t h = rw (append.cons (digit d) String.[] t) (rw (append.nil t) (read-digit n d t h))

read-decimal_from :
    (fuel n : ℕ) (t : String) → n ≤ fuel → read 0 (◌<>◌ (decimal_from fuel n) t) ≡ read n t
unfolding decimal_from
read-decimal_from zero n t h = read-one 0 n t (omega arith) ∙ ap (λ k. read k t) (omega arith)
read-decimal_from (suc fuel) n t h = elim (Bool-cases (ltb n 10)) [
  | inl e ↦ rw e (read-one 0 n t (ground arith) ∙ ap (λ k. read k t) (omega arith))
  | inr e ↦
      let front = decimal_from fuel (n / 10) in
      let last = one (digit (n % 10)) in
      rw e (
        ap (read 0) (append_assoc front last t)
        ∙ read-decimal_from fuel (n / 10) (◌<>◌ last t) (ground arith)
        ∙ read-one (n / 10) (n % 10) t (omega arith)
        ∙ ap (λ k. read k t) (omega arith))
]

read-decimal : (n : ℕ) (t : String) → read 0 (◌<>◌ (decimal n) t) ≡ read n t
unfolding decimal
read-decimal n t = read-decimal_from n n t (omega arith)

read-field : (n : ℕ) (t : String) → read 0 (◌<>◌ (decimal n) (String.◌∷◌ nul t)) ≡ (n, t)
unfolding read
read-field n t = read-decimal n (String.◌∷◌ nul t)

read-last : (n : ℕ) → (read 0 (decimal n)).0 ≡ n
unfolding read
read-last n =
    ap (λ s. (read 0 s).0) (sym (append-nil (decimal n))) ∙ ap (λ r. r.0) (read-decimal n String.[])

tail_of : String → String
tail_of String.[] = String.[]
tail_of (String.◌∷◌ c s) = s

-- The identities of two generations of one part are equal only if the generations are.
claim_identity-injective :
    (p : String) (a b c d : ℕ) → claim_identity p a b ≡ claim_identity p c d → (a ≡ c) × (b ≡ d)
unfolding claim_identity tail_of
claim_identity-injective p a b c d e =
    let cut : (String.◌∷◌ nul (◌<>◌ (decimal a) (String.◌∷◌ nul (decimal b)))
        ≡ String.◌∷◌ nul (◌<>◌ (decimal c) (String.◌∷◌ nul (decimal d)))) =
      append_cancel_left p _ _ e in
    let fields =
      sym (read-field a (decimal b))
      ∙ ap (λ s. read 0 (tail_of s)) cut
      ∙ read-field c (decimal d) in
    (ap (λ r. r.0) fields, sym (read-last b) ∙ ap (λ r. (read 0 r.1).0) fields ∙ read-last d)

-- Under a digest without collisions, a part's tokens of two generations are equal only if the
-- generations are.
pub claim_token-injective :
    (digest : String → String) (p : String) (a b c d : ℕ)
    → ((s t : String) → digest s ≡ digest t → s ≡ t)
    → claim_token digest p a b ≡ claim_token digest p c d
    → (a ≡ c) × (b ≡ d)
unfolding claim_token
claim_token-injective digest p a b c d apart e =
    claim_identity-injective p a b c d (apart _ _ (append_cancel_left "evidence-claim-v1:" _ _ e))
