-- ===== src/Bridge/Merge/Keys.antt =====
-- The key of a resource tells resources apart, as far as the separator does.
use Prim.Native.String.{[], ◌∷◌}
use Prim.Native.Char.{Char, code}
use text.Mathlib.TextLemmas.{
  append_assoc, cons-append, nil-append, head-eq_of_cons-eq, tail-eq_of_cons-eq,
}
use komari_bridge.Base.{
  ◌↔◌, String, ◌<>◌, ◌≡◌, refl, Bool, false, ◌||◌, arith, eqb, ◌≢◌, ap, sym, ◌∙◌,
}
use komari_bridge.Model.{Identity}
use komari_bridge.Bridge.Merge.{resource_key}

-- Is there a slash in the text?
abbrev pub has_slash : String → Bool
has_slash [] = false
has_slash (c ∷ s) = eqb (code c) b'/' || has_slash s

no_slash : (c : Char) (s : String) → has_slash (c ∷ s) ≡ false → code c ≢ b'/'
no_slash c s h e = ground arith

abbrev slash : Char
slash = "/"

slash-append : (u : String) → "/" <> u ≡ slash ∷ u
slash-append u = cons-append slash [] u ∙ ap (λ t. slash ∷ t) (nil-append u)

-- Up to its first slash a text is determined.
before_slash :
    (s t u v : String)
    → has_slash s ≡ false
    → has_slash t ≡ false
    → s <> ("/" <> u) ≡ t <> ("/" <> v)
    → (s ≡ t) × (u ≡ v)
before_slash [] [] u v h k e = (refl, tail-eq_of_cons-eq (simp (nil-append, slash-append) at e))
before_slash [] (d ∷ t) u v h k e =
    let e' = simp (nil-append, slash-append, cons-append) at e in
    absurd (no_slash d t k (sym (ap code (head-eq_of_cons-eq e'))))
before_slash (c ∷ s) [] u v h k e =
    let e' = simp (nil-append, slash-append, cons-append) at e in
    absurd (no_slash c s h (ap code (head-eq_of_cons-eq e')))
before_slash (c ∷ s) (d ∷ t) u v h k e =
    let e' = simp cons-append at e in
    let (p, q) = before_slash s t u v (ground arith) (ground arith) (tail-eq_of_cons-eq e') in
    (cc (head-eq_of_cons-eq e', p), q)

abbrev pub IsPlain : Identity → Type 0
IsPlain i = (has_slash i.source_type ≡ false) × (has_slash i.source_id ≡ false)

-- Identities whose source type and source id have no slash are told apart by their keys.
pub resource_key-injective :
    (i j : Identity) → IsPlain i → IsPlain j → resource_key i ≡ resource_key j → i ≡ j
unfolding resource_key
resource_key-injective i j p q e =
    let (types, rest) = before_slash i.source_type j.source_type _ _ p.0 q.0 e in
    let (ids, names) = before_slash i.source_id j.source_id _ _ p.1 q.1 rest in
    cc (types, ids, names)

-- Two identities whose source type and source id have no slash have the same key exactly when they
-- are the same.
pub resource_key_iff :
    (i j : Identity) → IsPlain i → IsPlain j → (resource_key i ≡ resource_key j) ↔ (i ≡ j)
resource_key_iff i j pi pj = (resource_key-injective i j pi pj, λ e. ap resource_key e)

-- A slash in a source id moves the boundary: two identities can share their key.
pub resource_key-collides :
    (kind id rest name : String)
    → resource_key
        (record { source_type = kind; source_id = id <> ("/" <> rest); external_id = name })
      ≡ resource_key
          (record { source_type = kind; source_id = id; external_id = rest <> ("/" <> name) })
unfolding resource_key
resource_key-collides kind id rest name = simp append_assoc
