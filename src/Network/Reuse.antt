-- ===== src/Network/Reuse.antt =====
-- When the slot of a client is offered to newcomers: `AccepterThread` against `PostAccept`.
use project_run_server.Base.{
  ℕ, zero, suc, ◌+◌, ◌<◌, ◌==◌, ◌≡◌, refl, ◌∙◌, Bool, true, false, List, [], ◌∷◌, ◌++◌, Option,
  none, some, get_elem?, arith, if◌then◌else◌,
}
use project_run_server.Network.{ClientInfo, uint32_max, is_free, post_accept, accepter_round}

abbrev pub count : ℕ → List ℕ → ℕ
count k [] = 0
count k (i ∷ is) = let rest = count k is in if i == k then suc rest else rest

pub count-append : (k : ℕ) (xs ys : List ℕ) → count k (xs ++ ys) ≡ count k xs + count k ys
count-append k [] ys = omega arith
count-append k (x ∷ xs) ys = ground (arith, count-append k xs ys)

-- rounds of the accepter thread, each at its time with the system's answers, and nothing in between
unfoldable pub rounds : List (ℕ × (ℕ → Bool × Bool)) → List ClientInfo → List ℕ
rounds [] cs = []
rounds ((now, answers) ∷ rs) cs =
    let (posted, cs') = accepter_round now answers 0 cs in posted ++ rounds rs cs'

abbrev pub All {ℓ κ} : {A : Type ℓ} → (A → Type κ) → List A → Type κ
All P [] = Unit
All P (x ∷ xs) = P x × All P xs

-- how often a slot, if there is one, is offered in a round
abbrev offers : ℕ → Option ClientInfo → ℕ
offers now none = 0
offers now (some c) = if is_free now c then 1 else 0

before :
    (now : ℕ) (answers : ℕ → Bool × Bool) (i k : ℕ) (cs : List ClientInfo)
    → k < i
    → count k (accepter_round now answers i cs).0 ≡ 0
unfolding accepter_round
before now answers i k [] h = refl
before now answers i k (c ∷ cs) h = ground (arith, before now answers (i + 1) k cs (omega arith))

count-accepter_round :
    (now : ℕ) (answers : ℕ → Bool × Bool) (i k : ℕ) (cs : List ClientInfo)
    → count (i + k) (accepter_round now answers i cs).0 ≡ offers now (get_elem? cs k)
unfolding accepter_round
count-accepter_round now answers i k [] = refl
count-accepter_round now answers i zero (c ∷ cs) =
    ground (arith, before now answers (i + 1) (i + 0) cs (omega arith))
count-accepter_round now answers i (suc k) (c ∷ cs) =
    let e : i + suc k ≡ (i + 1) + k = omega arith in
    let ih = count-accepter_round now answers (i + 1) k cs in rw e (ground (arith, ih))

-- a slot after a round
abbrev next : ℕ → Option ClientInfo → Option ClientInfo
next now none = none
next now (some c) =
    some (if is_free now c then record c { latest_closed_time_sec = uint32_max } else c)

get_elem?-accepter_round :
    (now : ℕ) (answers : ℕ → Bool × Bool) (i k : ℕ) (cs : List ClientInfo)
    → get_elem? (accepter_round now answers i cs).1 k ≡ next now (get_elem? cs k)
unfolding accepter_round post_accept
get_elem?-accepter_round now answers i k [] = refl
get_elem?-accepter_round now answers i zero (c ∷ cs) = ground arith
get_elem?-accepter_round now answers i (suc k) (c ∷ cs) =
    ground (arith, get_elem?-accepter_round now answers (i + 1) k cs)

-- a round for one slot
round_lem :
    (now : ℕ) (answers : ℕ → Bool × Bool) (rs : List (ℕ × (ℕ → Bool × Bool))) (cs : List ClientInfo)
    (k : ℕ)
    → let cs' = (accepter_round now answers 0 cs).1 in
      (count k (rounds ((now, answers) ∷ rs) cs)
        ≡ offers now (get_elem? cs k) + count k (rounds rs cs'))
      × (get_elem? cs' k ≡ next now (get_elem? cs k))
unfolding rounds
round_lem now answers rs cs k =
    let (posted, cs') = accepter_round now answers 0 cs in
    let e : 0 + k ≡ k = omega arith in
    let now_posted = rw e at (count-accepter_round now answers 0 k cs) in
    (
      omega (arith, count-append k posted (rounds rs cs'), now_posted),
      get_elem?-accepter_round now answers 0 k cs,
    )

-- a slot that waits for a client is not offered again
waiting :
    (rs : List (ℕ × (ℕ → Bool × Bool))) (cs : List ClientInfo) (k : ℕ) (c : ClientInfo)
    → All (λ r. r.0 < uint32_max) rs
    → get_elem? cs k ≡ some c
    → c.latest_closed_time_sec ≡ uint32_max
    → count k (rounds rs cs) ≡ 0
unfolding rounds is_free
waiting [] cs k c h e w = refl
waiting ((now, answers) ∷ rs) cs k c (early, h) e w =
    let cs' = (accepter_round now answers 0 cs).1 in
    let (counts, after) = round_lem now answers rs cs k in
    let busy : is_free now c ≡ false = ground (arith, early, w) in
    let same : get_elem? cs' k ≡ some c = after ∙ rw e (rw busy refl) in
    let zero_offers : offers now (get_elem? cs k) ≡ 0 = rw e (rw busy refl) in
    omega (arith, counts, zero_offers, waiting rs cs' k c h same w)

-- As long as the accepter thread runs with nothing else happening and the clock, in seconds, stays
-- below UINT32_MAX, and whatever the system answers, it posts one accept for a slot that is free at
-- the start, and no second one, even when the first failed.
pub rounds-once :
    (now : ℕ) (answers : ℕ → Bool × Bool) (rs : List (ℕ × (ℕ → Bool × Bool))) (cs : List ClientInfo)
    (k : ℕ) (c : ClientInfo)
    → All (λ r. r.0 < uint32_max) rs
    → get_elem? cs k ≡ some c
    → is_free now c ≡ true
    → count k (rounds ((now, answers) ∷ rs) cs) ≡ 1
rounds-once now answers rs cs k c h e free =
    let cs' = (accepter_round now answers 0 cs).1 in
    let c' = record c { latest_closed_time_sec = uint32_max } in
    let (counts, after) = round_lem now answers rs cs k in
    let one : offers now (get_elem? cs k) ≡ 1 = rw e (rw free refl) in
    let there : get_elem? cs' k ≡ some c' = after ∙ rw e (rw free refl) in
    omega (arith, counts, one, waiting rs cs' k c' h there refl)
