-- ===== src/Hazard/Records/RoundTrip.antt =====
-- Records that are acquired and released (crates/mem/src/hazard/domain.rs) by one thread.
use victory_db.Base.{
  ℕ, suc, ◌+◌, ◌%◌, ◌≡◌, ◌≢◌, refl, sym, ap, subst, ◌∙◌, inl, inr, some, true, false, List, [], ◌∷◌,
  ◌++◌, length, take, drop, take-append-drop, arith, ◌==◌, bit_or,
}
use victory_db.Base.Run.{ok}
use victory_db.SkipList.Node.{Ptr, null}
use victory_db.SkipList.Chain.{Has, last, first, Has-last, Has-append, Has-append_right}
use victory_db.Hazard.{
  HzdPtrRec, Records, HzdDomain, lock_bit, put_rec, take_locked, acquire_step, acquire_alone,
  try_acquire_available, push_available, release_many,
}
use victory_db.Hazard.Records.{
  AvailChain, AvailChain-put, AvailChain-cut, first-even, put_rec_here, put_rec_other, rec_at-some,
  set_available-some, unlocked, walk_available-ok,
}

-- Some records were taken from the list, and the others left.
pub record Taken (d : HzdDomain) (x : Ptr) (us vs : List Ptr) : Type 0 where
  pub left : AvailChain d.records d.avail_head vs
  pub own : AvailChain d.records x (x ∷ us)

take_locked-Taken :
    (more : ℕ) (d : HzdDomain) (p x : Ptr) (xs : List Ptr)
    → AvailChain d.records p (x ∷ xs)
    → (d' : HzdDomain) × (take_locked more d x ≡ ok (d', x, 1 + length (take more xs)))
      × Taken d' x (take more xs) (drop more xs)
unfolding take_locked
take_locked-Taken more d p x xs ch =
    let whole = take-append-drop more xs in
    let (r, there, ne, low, high) =
      AvailChain-cut d.records p x (take more xs) (drop more xs)
        (subst (λ (l : List Ptr). AvailChain d.records p (x ∷ l)) (sym whole) ch) in
    let (e, x_ne, even, once, (rx, rx_there, rest)) = ch in
    (
      record d {
        avail_head = first (drop more xs);
        records = put_rec d.records (last x (take more xs)) (record r { available = null });
      },
      rw
          (
            rec_at-some d.records x rx x_ne rx_there,
            walk_available-ok d.records more x rx.available 1 xs rest,
            set_available-some d.records (last x (take more xs)) null r ne there,
          )
          refl,
      record { left = high; own = low },
    )

acquire_alone-ok :
    (fuel more : ℕ) (d d' : HzdDomain) (x : Ptr) (n : ℕ)
    → d.avail_head ≡ x
    → x ≢ null
    → x % 2 ≡ 0
    → take_locked more (record d { avail_head = bit_or d.avail_head lock_bit }) x ≡ ok (d', x, n)
    → try_acquire_available (suc (suc (suc (suc fuel)))) more d ≡ ok (d', x, n)
unfolding try_acquire_available acquire_alone acquire_step
acquire_alone-ok fuel more d d' x n e ne even took =
    let alive : (d.avail_head == null) ≡ false = ground (arith, e, ne) in
    let free = unlocked d.avail_head (ap (λ (q : Ptr). q % 2) e ∙ even) in
    let took' : take_locked more (record d { avail_head = bit_or d.avail_head lock_bit })
          d.avail_head
        ≡ ok (d', x, n) =
      ap (take_locked more (record d { avail_head = bit_or d.avail_head lock_bit })) e ∙ took in
    rw (alive, free, took') refl

-- No record is both in the first part of a list and in the rest.
parts-apart :
    (rs : Records) (p x : Ptr) (us vs : List Ptr) (q : Ptr)
    → AvailChain rs p (x ∷ (us ++ vs))
    → Has q (x ∷ us)
    → Has q vs
    → ⊥
parts-apart rs p x us vs q (e, ne, even, once, tail) (inl same) there =
    once (Has-append_right x us vs (subst (λ (z : Ptr). Has z vs) same there))
parts-apart rs p x [] vs q ch (inr here) there = absurd here
parts-apart rs p x (u ∷ us) vs q (e, ne, even, once, (r, at, ch)) (inr here) there =
    parts-apart rs r.available u us vs q ch here there

AvailChain-last :
    (rs : Records) (p x : Ptr) (us : List Ptr)
    → AvailChain rs p (x ∷ us)
    → (r : HzdPtrRec) × (rs (last x us) ≡ some r) × (last x us ≢ null) × (r.available ≡ null)
AvailChain-last rs p x [] (e, ne, even, once, (r, there, end)) = (r, there, ne, end)
AvailChain-last rs p x (u ∷ us) (e, ne, even, once, (r, there, ch)) =
    AvailChain-last rs r.available u us ch

-- The last record of one list is linked to the start of another one.
AvailChain-join :
    (rs : Records) (p x q : Ptr) (us vs : List Ptr) (t : HzdPtrRec)
    → AvailChain rs p (x ∷ us)
    → AvailChain rs q vs
    → ((z : Ptr) → Has z (x ∷ us) → Has z vs → ⊥)
    → rs (last x us) ≡ some t
    → AvailChain (put_rec rs (last x us) (record t { available = q })) p (x ∷ (us ++ vs))
AvailChain-join rs p x q [] vs t (e, ne, even, once, (r, there, ch)) rest apart at =
    let t' : HzdPtrRec = record t { available = q } in
    let out : Has x vs → ⊥ = apart x (inl refl) in
    (e, ne, even, out, (t', put_rec_here rs x t', AvailChain-put rs q x t' vs out rest))
AvailChain-join rs p x q (u ∷ us) vs t (e, ne, even, once, (r, there, ch)) rest apart at =
    let t' : HzdPtrRec = record t { available = q } in
    let differ : x ≢ last u us =
      λ same. once (subst (λ (z : Ptr). Has z (u ∷ us)) (sym same) (Has-last x u us)) in
    (
      e,
      ne,
      even,
      (λ has. elim (Has-append x (u ∷ us) vs has) [
        | inl low ↦ once low
        | inr high ↦ apart x (inl refl) high
      ]),
      (
        r,
        put_rec_other rs (last u us) t' x differ ∙ there,
        AvailChain-join rs r.available u q us vs t ch rest (λ z here. apart z (inr here)) at,
      ),
    )

release_many-ok :
    (fuel : ℕ) (d : HzdDomain) (x : Ptr) (us vs : List Ptr)
    → Taken d x us vs
    → x % 2 ≡ 0
    → ((z : Ptr) → Has z (x ∷ us) → Has z vs → ⊥)
    → (d' : HzdDomain) × (release_many (suc fuel) d x (last x us) ≡ ok d')
      × AvailChain d'.records d'.avail_head (x ∷ (us ++ vs))
unfolding release_many push_available
release_many-ok fuel d x us vs taken even apart =
    let (t, at, ne, end) = AvailChain-last d.records x x us taken.own in
    let ended : (t.available == null) ≡ true = ground (arith, end) in
    let free = unlocked d.avail_head (first-even d.records d.avail_head vs taken.left) in
    (
      record d {
        avail_head = x;
        records = put_rec d.records (last x us) (record t { available = d.avail_head });
      },
      rw
          (
            rec_at-some d.records (last x us) t ne at,
            ended,
            unlocked x even,
            free,
            set_available-some d.records (last x us) d.avail_head t ne at,
          )
          refl,
      AvailChain-join d.records x x d.avail_head us vs t taken.own taken.left apart at,
    )

-- From an unlocked list that is not empty, one thread that asks for `suc more` records gets the
-- first of them, as many as there are up to that number, linked to each other and to no more, and
-- leaves the rest; with the first and the last of what it got, `release_many` makes the list what
-- it was. Four units of fuel are enough for the first, one for the second.
pub release_many-try_acquire :
    (fuel more : ℕ) (d : HzdDomain) (x : Ptr) (xs : List Ptr)
    → AvailChain d.records d.avail_head (x ∷ xs)
    → (d1 : HzdDomain) × (d2 : HzdDomain) × (try_acquire_available
          (suc (suc (suc (suc fuel))))
          more
          d
        ≡ ok (d1, x, 1 + length (take more xs)))
      × Taken d1 x (take more xs) (drop more xs)
      × (release_many (suc fuel) d1 x (last x (take more xs)) ≡ ok d2)
      × AvailChain d2.records d2.avail_head (x ∷ xs)
release_many-try_acquire fuel more d x xs ch =
    let (e, ne, even, once, rest) = ch in
    let locked : HzdDomain = record d { avail_head = bit_or d.avail_head lock_bit } in
    let (d1, took, taken) = take_locked-Taken more locked d.avail_head x xs ch in
    let whole = take-append-drop more xs in
    let (d2, released, list) =
      release_many-ok fuel d1 x (take more xs) (drop more xs) taken even (λ z.
        parts-apart d.records d.avail_head x (take more xs) (drop more xs) z
          (subst (λ (l : List Ptr). AvailChain d.records d.avail_head (x ∷ l)) (sym whole) ch)) in
    (
      d1,
      d2,
      acquire_alone-ok fuel more d d1 x (1 + length (take more xs)) e ne even took,
      taken,
      released,
      subst (λ (l : List Ptr). AvailChain d2.records d2.avail_head (x ∷ l)) whole list,
    )
