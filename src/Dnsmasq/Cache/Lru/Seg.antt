-- ===== src/Dnsmasq/Cache/Lru/Seg.antt =====
-- Runs of entries whose pointers lead from one to the next and back, for src/cache.c of
-- http1.0/src/dnsmasq/dnsmasq-2.45.
use mydns.Prelude.{
  ℕ, ◌≡◌, refl, ◌∙◌, List, [], ◌∷◌, ◌++◌, arith, Option, some, ◌==◌, false, All, All-append,
}
use mydns.Dnsmasq.Cache.Lru.{update}

abbrev pub first_or : List ℕ → Option ℕ → Option ℕ
first_or [] a = a
first_or (x ∷ xs) a = some x

abbrev pub last_or : Option ℕ → List ℕ → Option ℕ
last_or b [] = b
last_or b (x ∷ xs) = last_or (some x) xs

-- The entry is none of these.
abbrev pub IsFresh : ℕ → List ℕ → Type 0
IsFresh x = All (λ y. (y == x) ≡ false)

-- The pointers of the entries lead from one to the next and back, with `b` in front and `a` behind,
-- and no entry stands there twice.
abbrev pub IsSeg : (ℕ → Option ℕ) → (ℕ → Option ℕ) → Option ℕ → List ℕ → Option ℕ → Type 0
IsSeg next prev b [] a = Unit
IsSeg next prev b (x ∷ xs) a =
    (prev x ≡ b) × (next x ≡ first_or xs a) × IsFresh x xs × IsSeg next prev (some x) xs a

pub update-other :
    (f : ℕ → Option ℕ) (i : ℕ) (v : Option ℕ) (j : ℕ) → (j == i) ≡ false → update f i v j ≡ f j
unfolding update
update-other f i v j h = rw h

pub update_self : (f : ℕ → Option ℕ) (i : ℕ) (v : Option ℕ) → update f i v i ≡ v
unfolding update
update_self f i v = ground arith

pub IsSeg-update_next :
    (next prev : ℕ → Option ℕ) (b : Option ℕ) (xs : List ℕ) (a : Option ℕ) (i : ℕ) (v : Option ℕ)
    → IsFresh i xs
    → IsSeg next prev b xs a
    → IsSeg (update next i v) prev b xs a
IsSeg-update_next next prev b [] a i v out s = tt
IsSeg-update_next next prev b (x ∷ xs) a i v out s = (
  s.0,
  update-other next i v x out.0 ∙ s.1,
  s.2,
  IsSeg-update_next next prev (some x) xs a i v out.1 s.3,
)

pub IsSeg-update_prev :
    (next prev : ℕ → Option ℕ) (b : Option ℕ) (xs : List ℕ) (a : Option ℕ) (i : ℕ) (v : Option ℕ)
    → IsFresh i xs
    → IsSeg next prev b xs a
    → IsSeg next (update prev i v) b xs a
IsSeg-update_prev next prev b [] a i v out s = tt
IsSeg-update_prev next prev b (x ∷ xs) a i v out s = (
  update-other prev i v x out.0 ∙ s.0,
  s.1,
  s.2,
  IsSeg-update_prev next prev (some x) xs a i v out.1 s.3,
)

-- The back pointer of the first entry is set.
pub IsSeg-front :
    (next prev : ℕ → Option ℕ) (b v w : Option ℕ) (x : ℕ) (xs : List ℕ) (a : Option ℕ)
    → v ≡ w
    → IsSeg next prev b (x ∷ xs) a
    → IsSeg next (update prev x v) w (x ∷ xs) a
IsSeg-front next prev b v w x xs a e s =
    (update_self prev x v ∙ e, s.1, s.2, IsSeg-update_prev next prev (some x) xs a x v s.2 s.3)

-- The last of a list that is not empty.
abbrev pub last_of : ℕ → List ℕ → ℕ
last_of x [] = x
last_of x (y ∷ ys) = last_of y ys

pub last_or-last_of : (x : ℕ) (xs : List ℕ) → last_or (some x) xs ≡ some (last_of x xs)
last_or-last_of x [] = refl
last_or-last_of x (y ∷ ys) = last_or-last_of y ys

pub last_of-IsFresh : (x y : ℕ) (ys : List ℕ) → IsFresh x (y ∷ ys) → (x == last_of y ys) ≡ false
last_of-IsFresh x y [] h = ground (arith, h.0)
last_of-IsFresh x y (z ∷ ys) h = last_of-IsFresh x z ys h.1

-- The pointer of the last entry is set.
pub IsSeg-back :
    (next prev : ℕ → Option ℕ) (b : Option ℕ) (x : ℕ) (xs : List ℕ) (a v w : Option ℕ)
    → v ≡ w
    → IsSeg next prev b (x ∷ xs) a
    → IsSeg (update next (last_of x xs) v) prev b (x ∷ xs) w
IsSeg-back next prev b x [] a v w e s = (s.0, update_self next x v ∙ e, tt, tt)
IsSeg-back next prev b x (y ∷ ys) a v w e s = (
  s.0,
  update-other next (last_of y ys) v x (last_of-IsFresh x y ys s.2) ∙ s.1,
  s.2,
  IsSeg-back next prev (some x) y ys a v w e s.3,
)

-- Every entry of the first list is none of the second.
abbrev pub AreApart : List ℕ → List ℕ → Type 0
AreApart xs ys = All (λ x. IsFresh x ys) xs

pub IsFresh-append : (x : ℕ) (xs ys : List ℕ) → IsFresh x xs → IsFresh x ys → IsFresh x (xs ++ ys)
IsFresh-append x xs ys h k = All-append _ xs ys h k

pub IsSeg-append :
    (next prev : ℕ → Option ℕ) (b : Option ℕ) (xs ys : List ℕ) (a : Option ℕ)
    → IsSeg next prev b xs (first_or ys a)
    → IsSeg next prev (last_or b xs) ys a
    → AreApart xs ys
    → IsSeg next prev b (xs ++ ys) a
IsSeg-append next prev b [] ys a s t h = t
IsSeg-append next prev b (x ∷ []) ys a s t h = (s.0, s.1, IsFresh-append x [] ys s.2 h.0, t)
IsSeg-append next prev b (x ∷ (y ∷ xs)) ys a s t h = (
  s.0,
  s.1,
  IsFresh-append x (y ∷ xs) ys s.2 h.0,
  IsSeg-append next prev (some x) (y ∷ xs) ys a s.3 t h.1,
)

pub All-split {ℓ} : (P : ℕ → Type ℓ) (xs ys : List ℕ) → All P (xs ++ ys) → All P xs × All P ys
All-split P [] ys h = (tt, h)
All-split P (x ∷ xs) ys h = let (front, back) = All-split P xs ys h.1 in ((h.0, front), back)

pub IsSeg-split :
    (next prev : ℕ → Option ℕ) (b : Option ℕ) (xs ys : List ℕ) (a : Option ℕ)
    → IsSeg next prev b (xs ++ ys) a
    → IsSeg next prev b xs (first_or ys a) × IsSeg next prev (last_or b xs) ys a × AreApart xs ys
IsSeg-split next prev b [] ys a s = (tt, s, tt)
IsSeg-split next prev b (x ∷ []) ys a s = ((s.0, s.1, tt, tt), s.3, (s.2, tt))
IsSeg-split next prev b (x ∷ (y ∷ xs)) ys a s =
    let (front, back, apart) = IsSeg-split next prev (some x) (y ∷ xs) ys a s.3 in
    let (fresh, away) = All-split (λ z. (z == x) ≡ false) (y ∷ xs) ys s.2 in
    ((s.0, s.1, fresh, front), back, (away, apart))

pub last_or-append : (b : Option ℕ) (xs : List ℕ) (c : ℕ) → last_or b (xs ++ c ∷ []) ≡ some c
last_or-append b [] c = refl
last_or-append b (x ∷ xs) c = last_or-append (some x) xs c

pub IsFresh-AreApart : (c : ℕ) (xs : List ℕ) → IsFresh c xs → AreApart xs (c ∷ [])
IsFresh-AreApart c [] h = tt
IsFresh-AreApart c (x ∷ xs) h = ((ground (arith, h.0), tt), IsFresh-AreApart c xs h.1)

pub All-last_of {ℓ} : (P : ℕ → Type ℓ) (x : ℕ) (xs : List ℕ) → All P (x ∷ xs) → P (last_of x xs)
All-last_of P x [] h = h.0
All-last_of P x (y ∷ xs) h = All-last_of P y xs h.1

-- The first entry of the second list is none of the first, and the rest stays apart.
pub AreApart-IsFresh : (xs : List ℕ) (d : ℕ) (ys : List ℕ) → AreApart xs (d ∷ ys) → IsFresh d xs
AreApart-IsFresh [] d ys h = tt
AreApart-IsFresh (x ∷ xs) d ys h = (ground (arith, h.0.0), AreApart-IsFresh xs d ys h.1)

pub AreApart-first :
    (xs : List ℕ) (d : ℕ) (ys : List ℕ) → AreApart xs (d ∷ ys) → All (λ x. (d == x) ≡ false) xs
AreApart-first [] d ys h = tt
AreApart-first (x ∷ xs) d ys h = (h.0.0, AreApart-first xs d ys h.1)

pub AreApart-rest : (xs : List ℕ) (d : ℕ) (ys : List ℕ) → AreApart xs (d ∷ ys) → AreApart xs ys
AreApart-rest [] d ys h = tt
AreApart-rest (x ∷ xs) d ys h = (h.0.1, AreApart-rest xs d ys h.1)

pub last_or-join :
    (b : Option ℕ) (xs ys : List ℕ) → last_or b (xs ++ ys) ≡ last_or (last_or b xs) ys
last_or-join b [] ys = refl
last_or-join b (x ∷ xs) ys = last_or-join (some x) xs ys
