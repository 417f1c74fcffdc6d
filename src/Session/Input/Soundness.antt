-- ===== src/Session/Input/Soundness.antt =====
-- What `buildHeader` of TCPInput.cpp hands on.
use fix4_2_protocol.Base.{
  ℕ, Str, true, false, ◌+◌, ◌-◌, ◌%◌, Option, none, some, List, [], ◌∷◌, ◌++◌, append_assoc,
  append-nil, ◌≡◌, ◌≢◌, ◌⊎◌, inl, inr, refl, sym, ◌∙◌, arith, Option-cases,
}
use fix4_2_protocol.Session.Checksum.{split, running, verify_check_sum}
use fix4_2_protocol.Session.Input.{
  Insertion, failed, inserted, HeaderLibrary, verify_presence, required_tags, field, split_last,
  Scan, rejected, scanned, handed_on, verify_header, scan_rest, close_header, scan_header,
  check_last, finish_scan, build_header,
}

-- Every field as its tag and value, where every field is such.
pub fields : List Str → Option (List (Str × Str))
fields [] = some []
fields (p ∷ ps) = elim (field p) [
  | none ↦ none
  | some kv ↦ elim (fields ps) [ none ↦ none | some kvs ↦ some (kv ∷ kvs) ]
]

split_last_lem :
    (m front : List (Str × Str)) (l : Str × Str)
    → split_last m ≡ some (front, l)
    → m ≡ front ++ l ∷ []
unfolding split_last
split_last_lem [] front l h = ground arith
split_last_lem (p ∷ []) front l h = ground arith
split_last_lem (p ∷ q ∷ ps) front l h = elim (Option-cases (split_last (q ∷ ps))) [
  | inl e ↦ absurd (ground arith)
  | inr ((f, k), e) ↦ ground (arith, split_last_lem (q ∷ ps) f k e)
]

empty_lem : (m front : List (Str × Str)) (l : Str × Str) → m ≡ [] → split_last m ≢ some (front, l)
unfolding split_last
empty_lem [] front l e h = ground arith
empty_lem (p ∷ m) front l e h = ground arith

module _ {H : Type 0} (lib : HeaderLibrary H) where
  -- The fields that belong to the header, inserted in their order, with their tags; the last is the field that does not.
  pub data Inserted : H → List ℕ → List (Str × Str) → H → List ℕ → Str × Str → Type 0 where
    stops :
        (h h' : H) (tags : List ℕ) (k v : Str)
        → lib.try_insert h k v ≡ inserted h' false
        → Inserted h tags [] h' tags (k, v)
    belongs :
        (h h' h'' : H) (tags tags' : List ℕ) (k v : Str) (kvs : List (Str × Str)) (stop : Str × Str)
        → lib.try_insert h k v ≡ inserted h' true
        → Inserted h' (tags ++ (lib.stoi k % 65536) ∷ []) kvs h'' tags' stop
        → Inserted h tags ((k, v) ∷ kvs) h'' tags' stop

  -- The fields are those of the header, at least one that is not, and the rest, from which the last is taken; the header passes
  -- `verify`, the required tags are among its tags, and the sum agrees with the last field.
  pub record IsBuilt (text : Str) (h : H) (map : List (Str × Str)) : Type 0 where
    pub header_fields : List (Str × Str)
    pub tags : List ℕ
    pub stop : Str × Str
    pub rest : List (Str × Str)
    pub last : Str × Str
    pub all_fields : fields (split 1 text) ≡ some (header_fields ++ stop ∷ rest)
    pub in_header : Inserted lib.empty [] header_fields h tags stop
    pub is_verified : lib.verify h ≡ none
    pub are_present : verify_presence required_tags tags ≡ none
    pub body : stop ∷ rest ≡ map ++ last ∷ []
    pub sum_agrees :
        verify_check_sum
          (((running 0 0 (split 1 text)).0 + (4294967296 - (running 0 0 (split 1 text)).1))
            % 4294967296)
          last
        ≡ none

  module _ (seq : ℕ) where
    rest_lem :
        (h h' : H) (tags tags' : List ℕ) (m m' : List (Str × Str)) (ps : List Str)
        → scan_rest lib seq h tags m ps ≡ scanned h' tags' m'
        → (kvs : List (Str × Str)) × (fields ps ≡ some kvs)
          × (m' ≡ m ++ kvs)
          × (h' ≡ h)
          × (tags' ≡ tags)
    unfolding scan_rest fields
    rest_lem h h' tags tags' m m' [] e =
        ([], refl, ground (arith, append-nil m), ground arith, ground arith)
    rest_lem h h' tags tags' m m' (p ∷ ps) e = elim (Option-cases (field p)) [
      | inl q ↦ absurd (ground arith)
      | inr (kv, q) ↦
          let (kvs, a, b, c, d) = rest_lem h h' tags tags' (m ++ kv ∷ []) m' ps (ground arith) in
          (kv ∷ kvs, ground arith, b ∙ append_assoc m (kv ∷ []) kvs, c, d)
    ]

    -- What a scan that comes to an end with fields has found.
    record IsScanned (h : H) (tags : List ℕ) (ps : List Str) (h' : H) (tags' : List ℕ)
        (m : List (Str × Str)) : Type 0 where
      front : List (Str × Str)
      stop : Str × Str
      rest : List (Str × Str)
      all : fields ps ≡ some (front ++ stop ∷ rest)
      through : Inserted h tags front h' tags' stop
      found : m ≡ stop ∷ rest
      passed : verify_header lib seq h' tags' ≡ none

    close_lem :
        (h h' : H) (tags tags' : List ℕ) (kv : Str × Str) (m : List (Str × Str)) (ps : List Str)
        → close_header lib seq h tags kv ps ≡ scanned h' tags' m
        → (rest : List (Str × Str)) × (fields ps ≡ some rest)
          × (m ≡ kv ∷ rest)
          × (h' ≡ h)
          × (tags' ≡ tags)
          × (verify_header lib seq h tags ≡ none)
    unfolding close_header
    close_lem h h' tags tags' kv m ps e = elim (Option-cases (verify_header lib seq h tags)) [
      | inr (r, q) ↦ absurd (ground arith)
      | inl q ↦
          let (kvs, a, b, c, d) = rest_lem h h' tags tags' (kv ∷ []) m ps (ground arith) in
          (kvs, a, b, c, d, q)
    ]

    header_lem :
        (h h' : H) (tags tags' : List ℕ) (m : List (Str × Str)) (ps : List Str)
        → scan_header lib seq h tags ps ≡ scanned h' tags' m
        → (m ≡ []) ⊎ IsScanned h tags ps h' tags' m
    unfolding scan_header fields
    header_lem h h' tags tags' m [] e = inl (ground arith)
    header_lem h h' tags tags' m (p ∷ ps) e = elim (Option-cases (field p)) [
      | inl q ↦ absurd (ground arith)
      | inr ((k, v), q) ↦
          went k v q (lib.try_insert h k v) refl
            (λ h1. header_lem h1 h' (tags ++ (lib.stoi k % 65536) ∷ []) tags' m ps)
    ]
      where
        went :
            (k v : Str)
            → field p ≡ some (k, v)
            → (i : Insertion H) → lib.try_insert h k v ≡ i
            → ((h1 : H)
                → scan_header lib seq h1 (tags ++ (lib.stoi k % 65536) ∷ []) ps ≡ scanned h' tags' m
                → (m ≡ []) ⊎ IsScanned h1 (tags ++ (lib.stoi k % 65536) ∷ []) ps h' tags' m)
            → (m ≡ []) ⊎ IsScanned h tags (p ∷ ps) h' tags' m
        went k v q (failed r) f ih = absurd (ground arith)
        went k v q (inserted h1 true) f ih = elim (ih h1 (ground arith)) [
          | inl none_left ↦ inl none_left
          | inr s ↦ inr (record {
            front = (k, v) ∷ s.front;
            stop = s.stop;
            rest = s.rest;
            all = ground (arith, s.all);
            through = belongs h h1 h' tags tags' k v s.front s.stop f s.through;
            found = s.found;
            passed = s.passed;
          })
        ]
        went k v q (inserted h1 false) f ih =
            let (rest, a, b, c, d, g) = close_lem h1 h' tags tags' (k, v) m ps (ground arith) in
            inr (record {
              front = [];
              stop = (k, v);
              rest = rest;
              all = ground arith;
              through = rw (c, d) (stops h h1 tags k v f);
              found = b;
              passed = rw (c, d) g;
            })

    finish_lem :
        (sum : ℕ) (s : Scan H) (h : H) (map : List (Str × Str))
        → finish_scan lib seq sum s ≡ handed_on h map
        → (tags : List ℕ) × (m : List (Str × Str)) × (l : Str × Str) × (s ≡ scanned h tags m)
          × (split_last m ≡ some (map, l))
          × (verify_check_sum sum l ≡ none)
    unfolding finish_scan check_last
    finish_lem sum (rejected r) h map e = absurd (ground arith)
    finish_lem sum (scanned h0 tags m) h map e = elim (Option-cases (split_last m)) [
      | inl q ↦ absurd (ground arith)
      | inr ((front, l), q) ↦ elim (Option-cases (verify_check_sum sum l)) [
        | inr (r, v) ↦ absurd (ground arith)
        | inl v ↦ (tags, m, l, ground arith, ground arith, v)
      ]
    ]

    verified : (h : H) (tags : List ℕ) → verify_header lib seq h tags ≡ none → lib.verify h ≡ none
    unfolding verify_header
    verified h tags e = ground arith

    present :
        (h : H) (tags : List ℕ)
        → verify_header lib seq h tags ≡ none
        → verify_presence required_tags tags ≡ none
    unfolding verify_header
    present h tags e = elim (Option-cases (lib.verify h)) [
      | inl q ↦ ground arith
      | inr (r, q) ↦ absurd (ground arith)
    ]

    -- Whatever `buildHeader` hands on has been built: the fields are split as IsBuilt says, the header has passed its checks and has
    -- the four required tags, and the checksum agrees.
    pub build_header-IsBuilt :
        (text : Str) (h : H) (map : List (Str × Str))
        → build_header lib seq text ≡ handed_on h map
        → IsBuilt text h map
    unfolding build_header
    build_header-IsBuilt text h map e =
        let (sum, last) = running 0 0 (split 1 text) in
        let (tags, m, l, a, b, c) =
          finish_lem ((sum + (4294967296 - last)) % 4294967296)
            (scan_header lib seq lib.empty [] (split 1 text)) h map e in
        elim (header_lem lib.empty h [] tags m (split 1 text) a) [
          | inl nothing ↦ absurd (empty_lem m map l nothing b)
          | inr s ↦ record {
            header_fields = s.front;
            tags = tags;
            stop = s.stop;
            rest = s.rest;
            last = l;
            all_fields = s.all;
            in_header = s.through;
            is_verified = verified h tags s.passed;
            are_present = present h tags s.passed;
            body = sym s.found ∙ split_last_lem m map l b;
            sum_agrees = c;
          }
        ]
