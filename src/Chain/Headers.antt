-- ===== src/Chain/Headers.antt =====
-- `store_header`, with the reads that see it: `load_header`, `has_header` and `get_children`.
use amaru_wear.Prelude.{
  ◌≡◌, refl, sym, ap, ◌∙◌, Bool, true, false, ◌&&◌, ◌||◌, Bool-cases, inl, inr, Option, none, some,
  List, [], ◌++◌, arith, length, ok, if◌then◌else◌, then_ok,
}
use amaru_wear.Bytes.{Bytes, same, starts_with, same→eq, same_iff}
use amaru_wear.Bytes.Order.{same-append_left, same-append, starts_with-append}
use amaru_wear.RocksDb.{RocksDb, IsLawful, IsReliable, put_ok, in_transaction_ok}
use amaru_wear.Chain.{Kernel, IsKernel, child_prefix, child_key, header_prefix, header_hash_size}
use amaru_wear.Chain.Read.{load_header, get_children}
use amaru_wear.Chain.Write.{write_failed, db_put, put_link, store_header, store_header_in_tx}
use amaru_wear.Chain.Best.{peek_ok}
use amaru_wear.Chain.Children.{elem, is_some, IsFamily, get_children_lem}

starts_with-child_prefix : (p c : Bytes) → starts_with child_prefix (child_key p c) ≡ true
unfolding child_key
starts_with-child_prefix p c = starts_with-append child_prefix (p ++ c)

same-child_keys :
    (q p a c : Bytes)
    → length q ≡ length p
    → same (child_key q a) (child_key p c) ≡ (same q p && same a c)
unfolding child_key
same-child_keys q p a c l = same-append_left child_prefix _ _ ∙ same-append q p a c l

not_child_prefix : (g : Bytes) → starts_with child_prefix (header_prefix ++ g) ≡ false
unfolding starts_with
not_child_prefix g = refl

pub is_parent : Bytes → Option Bytes → Bool
is_parent p none = false
is_parent p (some q) = same q p

module _ (R : RocksDb) (K : Kernel) where
  open R use {Db, content, write}

  -- The link that a header's parent gets.
  linked : Option Bytes → Bytes → Db → Db
  linked none c d = d
  linked (some p) c d = write d (child_key p c) []

  after_store : K.Header → Db → Db
  after_store h d =
      write (linked (K.parent h) (K.hash h) d) (header_prefix ++ K.hash h) (K.header_to_cbor h)

  module _ (sound : IsReliable R) (L : IsLawful R) (N : IsKernel K) where
    put_link_ok :
        (o : Option Bytes) (c : Bytes) (d : Db) → put_link R K o c d ≡ (ok tt, linked o c d)
    unfolding put_link linked
    put_link_ok none c d = refl
    put_link_ok (some p) c d = put_ok R (write_failed R K) sound (child_key p c) [] d

    -- The link is no entry of another kind.
    content-linked :
        (o : Option Bytes) (c j : Bytes) (d : Db)
        → starts_with child_prefix j ≡ false
        → content (linked o c d) j ≡ content d j
    unfolding linked
    content-linked none c j d h = refl
    content-linked (some p) c j d h =
        L.content-write d (child_key p c) [] j
        ∙ ground (arith, same_iff (child_key p c) j, starts_with-child_prefix p c)

    store_header_ok : (h : K.Header) (d : Db) → store_header R K h d ≡ (ok tt, after_store h d)
    unfolding store_header store_header_in_tx after_store
    store_header_ok h d =
        in_transaction_ok R (write_failed R K) sound (store_header_in_tx R K h) d (
          then_ok (put_link R K (K.parent h) (K.hash h)) (db_put R K _ _) d
            (put_link_ok (K.parent h) (K.hash h) d)
          ∙ put_ok R (write_failed R K) sound (header_prefix ++ K.hash h) (K.header_to_cbor h)
              (linked (K.parent h) (K.hash h) d))

    content_header :
        (h : K.Header) (d : Db) (g : Bytes)
        → content (after_store h d) (header_prefix ++ g) ≡ (
            if same (K.hash h) g then some (K.header_to_cbor h) else content d (header_prefix ++ g))
    unfolding after_store
    content_header h d g =
        L.content-write (linked (K.parent h) (K.hash h) d) (header_prefix ++ K.hash h)
          (K.header_to_cbor h) (header_prefix ++ g)
        ∙ rw (same-append_left header_prefix (K.hash h) g) (
            ground (
              arith,
              content-linked (K.parent h) (K.hash h) (header_prefix ++ g) d (not_child_prefix g),
            ))

    -- `store_header` succeeds, and then the header is found under its hash, every other header as
    -- before.
    pub load_header-store_header :
        (h : K.Header) (d : Db) (g : Bytes)
        → (d' : Db) × (store_header R K h d ≡ (ok tt, d'))
          × (load_header R K g d' ≡ (if same (K.hash h) g then some h else load_header R K g d))
    unfolding load_header
    load_header-store_header h d g = (
      after_store h d,
      store_header_ok h d,
      ground (
        arith,
        peek_ok R K sound L N (header_prefix ++ g) (after_store h d),
        peek_ok R K sound L N (header_prefix ++ g) d,
        content_header h d g,
        N.header_round_trip h,
      ),
    )

    -- What the write of a header does to the links.
    is_some-linked :
        (o : Option Bytes) (a p c : Bytes) (d : Db)
        → length p ≡ header_hash_size
        → ((q : Bytes) → o ≡ some q → length q ≡ header_hash_size)
        → is_some (content (linked o a d) (child_key p c))
          ≡ (is_some (content d (child_key p c)) || (is_parent p o && same a c))
    unfolding linked is_parent
    is_some-linked none a p c d hp ho = ground arith
    is_some-linked (some q) a p c d hp ho =
        ap is_some (L.content-write d (child_key q a) [] (child_key p c))
        ∙ ground (arith, same-child_keys q p a c (ho q refl ∙ sym hp))

    content-after_store :
        (h : K.Header) (d : Db) (j : Bytes)
        → starts_with child_prefix j ≡ true
        → content (after_store h d) j ≡ content (linked (K.parent h) (K.hash h) d) j
    unfolding after_store
    content-after_store h d j under =
        L.content-write (linked (K.parent h) (K.hash h) d) (header_prefix ++ K.hash h)
          (K.header_to_cbor h) j
        ∙ ground (arith, same_iff (header_prefix ++ K.hash h) j, not_child_prefix (K.hash h))

    linked-IsFamily :
        (o : Option Bytes) (a : Bytes) (d : Db)
        → length a ≡ header_hash_size
        → ((q : Bytes) → o ≡ some q → length q ≡ header_hash_size)
        → IsFamily R d
        → IsFamily R (linked o a d)
    unfolding linked
    linked-IsFamily none a d ha ho family = family
    linked-IsFamily (some q) a d ha ho family = record {
      at_link = λ j v under e. elim (Bool-cases (same (child_key q a) j)) [
        | inl s ↦ (q, a, ho q refl, ha, sym (same→eq _ _ s))
        | inr s ↦
            family.at_link j v under (ground (arith, L.content-write d (child_key q a) [] j, e, s))
      ];
    }

    after_store-IsFamily :
        (h : K.Header) (d : Db)
        → ((q : Bytes) → K.parent h ≡ some q → length q ≡ header_hash_size)
        → IsFamily R d
        → IsFamily R (after_store h d)
    after_store-IsFamily h d hparent family =
        let linked_family =
          linked-IsFamily (K.parent h) (K.hash h) d (N.length-hash h) hparent family in
        record {
          at_link = λ j v under e.
              linked_family.at_link j v under (sym (content-after_store h d j under) ∙ e);
        }

    -- After `store_header` the parent's children are those it had before and the header, and the
    -- children of any other hash are as before.
    pub get_children-store_header :
        (h : K.Header) (d : Db) (p : Bytes)
        → length p ≡ header_hash_size
        → ((q : Bytes) → K.parent h ≡ some q → length q ≡ header_hash_size)
        → IsFamily R d
        → (d' : Db) × (cs : List Bytes) × (cs' : List Bytes) × (store_header R K h d ≡ (ok tt, d'))
          × (get_children R K p d ≡ ok cs)
          × (get_children R K p d' ≡ ok cs')
          × ((c : Bytes)
              → elem c cs' ≡ (elem c cs || (is_parent p (K.parent h) && same (K.hash h) c)))
          × IsFamily R d'
    get_children-store_header h d p hp hparent family =
        let d' = after_store h d in
        let (cs, got, old) = get_children_lem R K sound L N d p hp family in
        let family' = after_store-IsFamily h d hparent family in
        let (cs', got', new) = get_children_lem R K sound L N d' p hp family' in
        (
          d',
          cs,
          cs',
          store_header_ok h d,
          got,
          got',
          λ c.
              new c
              ∙ ap is_some (content-after_store h d (child_key p c) (starts_with-child_prefix p c))
              ∙ is_some-linked (K.parent h) (K.hash h) p c d hp hparent
              ∙ rw (old c),
          family',
        )
