-- ===== src/Streams.antt =====
-- auth_tools.go: the topics that an event is sent to, and those that a listener may read.
use Prim.Native.String.{◌++◌ as cat}
use awesome_go_auth.Base.{
  String, true, List, [], ◌∷◌, ◌++◌, In, ◌==◌, ◌≡◌, ◌↔◌, ◌⊎◌, arith, inl, inr, refl, sym, subst,
  if◌then◌else◌, Bool-cases,
}
use awesome_go_auth.Roles.{contains}
use awesome_go_auth.Roles.Laws.{contains_iff}

-- a topic of a prefix, where there is a name
abbrev topic_of : String → String → List String
topic_of prefix name = if name == "" then [] else cat prefix name ∷ []

unfoldable pub event_topics : String → String → String → List String
event_topics tenant_id user_id session_id =
    "global"
    ∷ (topic_of "tenant:" tenant_id ++ topic_of "user:" user_id ++ topic_of "session:" session_id)

unfoldable pub authorised_topics : String → String → List String
authorised_topics user_id tenant_id =
    "global" ∷ (topic_of "tenant:" tenant_id ++ topic_of "user:" user_id)

-- the loop over what is requested
unfoldable pub allowed : List String → List String → List String
allowed authorised [] = []
allowed authorised (want ∷ rest) =
    if contains want authorised then want ∷ allowed authorised rest else allowed authorised rest

unfoldable pub stream_topics : String → String → List String → List String
stream_topics user_id tenant_id [] = authorised_topics user_id tenant_id
stream_topics user_id tenant_id (r ∷ rs) = allowed (authorised_topics user_id tenant_id) (r ∷ rs)

In-allowed :
    (topic : String) (authorised wanted : List String)
    → In topic (allowed authorised wanted) ↔ (In topic wanted × In topic authorised)
unfolding allowed
In-allowed topic authorised [] = (λ i. elim i [ ], λ h. h.0)
In-allowed topic authorised (w ∷ ws) =
    let ih = In-allowed topic authorised ws in
    elim (Bool-cases (contains w authorised)) [
      | inl may ↦
          rw (may, allowed)
            (
              λ i. elim i [
                | inl e ↦ (
                  inl e,
                  (contains_iff topic authorised).0
                      (subst (λ t. contains t authorised ≡ true) (sym e) may),
                )
                | inr later ↦ let (i1, i2) = ih.0 later in (inr i1, i2)
              ],
              λ (i, a). elim i [ inl e ↦ inl e | inr later ↦ inr (ih.1 (later, a)) ],
            )
      | inr may_not ↦
          rw (may_not, allowed)
            (
              λ i. let (i1, i2) = ih.0 i in (inr i1, i2),
              λ (i, a). elim i [
                | inl e ↦ ground (arith, may_not, e, (contains_iff topic authorised).1 a)
                | inr later ↦ ih.1 (later, a)
              ],
            )
    ]

-- A listener reads exactly the topics that he may read and that he asks for, all of them where he
-- asks for none: the common one, that of his tenant and his own.
pub In-stream_topics :
    (user_id tenant_id topic : String) (requested : List String)
    → In topic (stream_topics user_id tenant_id requested)
      ↔ (In topic (authorised_topics user_id tenant_id) × ((requested ≡ []) ⊎ In topic requested))
unfolding stream_topics
In-stream_topics user_id tenant_id topic [] = (λ i. (i, inl refl), λ h. h.0)
In-stream_topics user_id tenant_id topic (r ∷ rs) =
    let iff = In-allowed topic (authorised_topics user_id tenant_id) (r ∷ rs) in
    (
      λ i. let (asked, may) = iff.0 i in (may, inr asked),
      λ (may, asked). elim asked [ inl e ↦ absurd (ground (arith, e)) | inr i ↦ iff.1 (i, may) ],
    )
