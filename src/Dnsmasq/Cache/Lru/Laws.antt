-- ===== src/Dnsmasq/Cache/Lru/Laws.antt =====
-- The list operations of src/cache.c in http1.0/src/dnsmasq/dnsmasq-2.45 on sequences of entries.
use mydns.Prelude.{
  ℕ, ◌≡◌, refl, sym, ap, subst, ◌∙◌, List, [], ◌∷◌, ◌++◌, Option, none, some, ◌==◌, false,
  append-nil,
}
use mydns.Dnsmasq.Cache.Lru.{Lru, update, cache_link, cache_unlink, append_tail}
use mydns.Dnsmasq.Cache.Lru.Seg.{
  first_or, last_or, IsFresh, IsSeg, update-other, update_self, IsSeg-update_next,
  IsSeg-update_prev, IsSeg-front, last_of, last_or-last_of, IsSeg-back, AreApart, IsFresh-append,
  IsSeg-append, IsSeg-split, last_or-append, IsFresh-AreApart, All-last_of, AreApart-IsFresh,
  AreApart-first, AreApart-rest, last_or-join,
}

-- The list has these entries, from its head to its tail.
pub record IsLru (l : Lru) (xs : List ℕ) : Type 0 where
  pub seg : IsSeg l.next l.prev none xs none
  pub from_head : l.head ≡ first_or xs none
  pub to_tail : l.tail ≡ last_or none xs

-- The list with these pointers and entries.
abbrev list_of : (ℕ → Option ℕ) → (ℕ → Option ℕ) → List ℕ → Lru
list_of next prev xs = record {
  next = next;
  prev = prev;
  head = first_or xs none;
  tail = last_or none xs;
}

IsLru-eq : (l : Lru) (xs : List ℕ) → IsLru l xs → list_of l.next l.prev xs ≡ l
IsLru-eq l xs r = λ i. record {
  next = l.next;
  prev = l.prev;
  head = (sym r.from_head) i;
  tail = (sym r.to_tail) i;
}

link_lem :
    (next prev : ℕ → Option ℕ) (c : ℕ) (xs : List ℕ)
    → IsSeg next prev none xs none
    → IsFresh c xs
    → IsLru (cache_link c (list_of next prev xs)) (c ∷ xs)
unfolding cache_link
link_lem next prev c [] s h = record {
  seg = (update_self prev c none, update_self next c none, tt, tt);
  from_head = refl;
  to_tail = refl;
}
link_lem next prev c (x ∷ xs) s h = record {
  seg = (
    update_self _ c none,
    update_self next c (some x),
    h,
    IsSeg-update_prev _ _ (some c) (x ∷ xs) none c none h (
        IsSeg-update_next next _ (some c) (x ∷ xs) none c (some x) h
          (IsSeg-front next prev none (some c) (some c) x xs none refl s)),
  );
  from_head = refl;
  to_tail = rw (last_or-last_of x xs);
}

append_tail_lem :
    (next prev : ℕ → Option ℕ) (c : ℕ) (xs : List ℕ)
    → IsSeg next prev none xs none
    → IsFresh c xs
    → IsLru (append_tail c (list_of next prev xs)) (xs ++ c ∷ [])
unfolding append_tail
append_tail_lem next prev c [] s h = record {
  seg = (update_self prev c none, update_self next c none, tt, tt);
  from_head = refl;
  to_tail = refl;
}
append_tail_lem next prev c (x ∷ xs) s h = rw (last_or-last_of x xs) (record {
  seg =
      IsSeg-append _ _ none (x ∷ xs) (c ∷ []) none
        (IsSeg-update_next _ _ none (x ∷ xs) (some c) c none h (
          IsSeg-update_prev _ prev none (x ∷ xs) (some c) c (some (last_of x xs)) h
            (IsSeg-back next prev none x xs none (some c) (some c) refl s)))
        (update_self prev c _ ∙ sym (last_or-last_of x xs), update_self _ c none, tt, tt)
        (IsFresh-AreApart c (x ∷ xs) h);
  from_head = refl;
  to_tail = sym (last_or-append (some x) xs c);
})

unlink_lem :
    (next prev : ℕ → Option ℕ) (front : List ℕ) (c : ℕ) (back : List ℕ)
    → IsSeg next prev none front (some c)
    → IsSeg next prev (last_or none front) (c ∷ back) none
    → AreApart front (c ∷ back)
    → IsLru (cache_unlink c (list_of next prev (front ++ c ∷ back))) (front ++ back)
unfolding cache_unlink
unlink_lem next prev [] c [] sf s apart =
    rw (s.0, s.1) (record { seg = tt; from_head = refl; to_tail = s.0 })
unlink_lem next prev [] c (d ∷ back) sf s apart =
    let seg : IsSeg next (update prev d (prev c)) none (d ∷ back) none =
      IsSeg-front next prev (some c) (prev c) none d back none s.0 s.3 in
    rw (s.0, s.1) (record { seg = seg; from_head = refl; to_tail = refl })
unlink_lem next prev (f ∷ front) c [] sf s apart =
    let t = last_of f front in
    let other : (c == t) ≡ false =
      All-last_of (λ x. (c == x) ≡ false) f front (AreApart-first (f ∷ front) c [] apart) in
    let at_prev : prev c ≡ some t = s.0 ∙ last_or-last_of f front in
    let seg : IsSeg (update next t none) prev none ((f ∷ front) ++ []) none =
      rw (append-nil front) (IsSeg-back next prev none f front (some c) none none refl sf) in
    rw (at_prev, s.1, update-other next t none c other ∙ s.1)
      (record {
        seg = seg;
        from_head = refl;
        to_tail = s.0 ∙ ap (last_or (some f)) (sym (append-nil front));
      })
unlink_lem next prev (f ∷ front) c (d ∷ back) sf s apart =
    let t = last_of f front in
    let other : (c == t) ≡ false =
      All-last_of (λ x. (c == x) ≡ false) f front (AreApart-first (f ∷ front) c (d ∷ back) apart) in
    let at_prev : prev c ≡ some t = s.0 ∙ last_or-last_of f front in
    let away : AreApart (f ∷ front) (d ∷ back) = AreApart-rest (f ∷ front) c (d ∷ back) apart in
    let fresh : IsFresh t (d ∷ back) =
      (All-last_of (λ x. IsFresh x (c ∷ d ∷ back)) f front apart).1 in
    let seg : IsSeg (update next t (some d)) (update prev d (prev c)) none ((f ∷ front) ++ d ∷ back)
        none =
      IsSeg-append _ _ none (f ∷ front) (d ∷ back) none
        (IsSeg-update_prev _ prev none (f ∷ front) (some d) d (prev c)
          (AreApart-IsFresh (f ∷ front) d back away)
          (IsSeg-back next prev none f front (some c) (some d) (some d) refl sf))
        (IsSeg-front _ prev (some c) (prev c) (last_or none (f ∷ front)) d back none s.0
          (IsSeg-update_next next prev (some c) (d ∷ back) none t (some d) fresh s.3))
        away in
    rw (at_prev, s.1, update-other next t (some d) c other ∙ s.1)
      (record {
        seg = seg;
        from_head = refl;
        to_tail =
            last_or-join (some f) front (c ∷ d ∷ back)
            ∙ sym (last_or-join (some f) front (d ∷ back));
      })

-- An entry that the list has not is put in front by `cache_link`.
pub cache_link-IsLru :
    (l : Lru) (xs : List ℕ) (c : ℕ) → IsLru l xs → IsFresh c xs → IsLru (cache_link c l) (c ∷ xs)
cache_link-IsLru l xs c r h =
    subst (λ m. IsLru (cache_link c m) (c ∷ xs)) (IsLru-eq l xs r)
      (link_lem l.next l.prev c xs r.seg h)

-- It is put at the end by `cache_free`.
pub append_tail-IsLru :
    (l : Lru) (xs : List ℕ) (c : ℕ)
    → IsLru l xs
    → IsFresh c xs
    → IsLru (append_tail c l) (xs ++ c ∷ [])
append_tail-IsLru l xs c r h =
    subst (λ m. IsLru (append_tail c m) (xs ++ c ∷ [])) (IsLru-eq l xs r)
      (append_tail_lem l.next l.prev c xs r.seg h)

-- An entry of the list is taken out by `cache_unlink`, wherever it stands.
pub cache_unlink-IsLru :
    (l : Lru) (front : List ℕ) (c : ℕ) (back : List ℕ)
    → IsLru l (front ++ c ∷ back)
    → IsLru (cache_unlink c l) (front ++ back)
cache_unlink-IsLru l front c back r =
    let (sf, s, apart) = IsSeg-split l.next l.prev none front (c ∷ back) none r.seg in
    subst (λ m. IsLru (cache_unlink c m) (front ++ back)) (IsLru-eq l (front ++ c ∷ back) r)
      (unlink_lem l.next l.prev front c back sf s apart)

-- An entry of the list, wherever it stands, is moved to the front by `cache_unlink` and `cache_link`,
-- and to the end by `cache_unlink` and `cache_free`; all others keep their order, and every pointer
-- leads to the neighbour in both directions.
pub cache_link-cache_unlink :
    (l : Lru) (front : List ℕ) (c : ℕ) (back : List ℕ)
    → IsLru l (front ++ c ∷ back)
    → IsLru (cache_link c (cache_unlink c l)) (c ∷ (front ++ back))
      × IsLru (append_tail c (cache_unlink c l)) ((front ++ back) ++ c ∷ [])
cache_link-cache_unlink l front c back r =
    let (sf, s, apart) = IsSeg-split l.next l.prev none front (c ∷ back) none r.seg in
    let out : IsFresh c (front ++ back) =
      IsFresh-append c front back (AreApart-IsFresh front c back apart) s.2 in
    let taken = cache_unlink-IsLru l front c back r in
    (
      cache_link-IsLru _ (front ++ back) c taken out,
      append_tail-IsLru _ (front ++ back) c taken out,
    )
