-- ===== src/Linear/Workpad/Kept.antt =====
-- UpsertWorkpad of internal/integration/linear/client.go keeps one workpad for an issue.
use symphony_go.Prelude.{
  ◌<◌, Bool, true, false, Text, text_eq, text_eq_iff, contains, if_case, Bool-cases, List, [], ◌∷◌,
  length, All, In, All-In, Result, ok, err, ◌≡◌, ◌≢◌, ◌⊎◌, refl, sym, ap, ◌∙◌, arith, inl, inr,
}
use symphony_go.Linear.Workpad.{
  Comment, CommentApi, heading, first_workpad, confirmed, find_workpad_comment, create_comment,
  update_comment, upsert_found, upsert_workpad,
}

abbrev pub Named : Comment → Type 0
Named comment = text_eq comment.id [] ≡ false

abbrev pub IsWorkpad : Comment → Type 0
IsWorkpad comment = contains comment.body heading ≡ true

-- What Linear documents, of an issue whose comments all fit in the answer to a query, in whatever order
-- that answer has them. Every comment has an identifier. After a create the answer has one comment more,
-- and its text keeps a heading of the body that was sent. After an update, comments with another identifier
-- are as before, and a comment with this one is still there, and its text keeps a heading that was sent.
pub record IsDocumented {S : Type 0} (api : CommentApi S) : Type 0 where
  pub names :
      (s : S) (issue_id : Text) (listed : List Comment)
      → api.comments s issue_id ≡ ok listed
      → All Named listed
  pub creates :
      (s now : S) (issue_id body : Text) (listed : List Comment)
      → api.create s issue_id body ≡ (now, ok true)
      → api.comments s issue_id ≡ ok listed
      → length listed < 50
      → (then_listed : List Comment) × (api.comments now issue_id ≡ ok then_listed)
        × (created : Comment) × In created then_listed
        × (contains body heading ≡ true → IsWorkpad created)
        × ((comment : Comment) → In comment then_listed → (comment ≡ created) ⊎ In comment listed)
  pub updates :
      (s now : S) (issue_id id body : Text) (listed : List Comment)
      → api.update s id body ≡ (now, ok true)
      → api.comments s issue_id ≡ ok listed
      → length listed < 50
      → (then_listed : List Comment) × (api.comments now issue_id ≡ ok then_listed)
        × ((comment : Comment) → In comment then_listed → (comment.id ≡ id) ⊎ In comment listed)
        × ((comment : Comment)
            → In comment listed
            → comment.id ≡ id
            → (updated : Comment) × In updated then_listed
              × (updated.id ≡ id)
              × (contains body heading ≡ true → IsWorkpad updated))

-- All workpads in the list are one comment.
abbrev pub OneWorkpad : List Comment → Type 0
OneWorkpad listed =
    (a b : Comment) → In a listed → In b listed → IsWorkpad a → IsWorkpad b → a.id ≡ b.id

-- What the loop of findWorkpadComment finds.
abbrev Found : List Comment → Type 0
Found listed =
    ((first_workpad listed ≡ [])
      × ((comment : Comment) → In comment listed → IsWorkpad comment → ⊥))
    ⊎ ((comment : Comment) × In comment listed
        × IsWorkpad comment
        × (first_workpad listed ≡ comment.id))

first_workpad-Found : (listed : List Comment) → Found listed
unfolding first_workpad
first_workpad-Found [] = inl (refl, λ comment among h. absurd among)
first_workpad-Found (c ∷ listed) = elim (Bool-cases (contains c.body heading)) [
  | inl here ↦ inr (c, inl refl, here, rw (first_workpad, here) refl)
  | inr other ↦ elim (first_workpad-Found listed) [
    | inl (nothing, no_other) ↦ inl (
      rw (first_workpad, other) nothing,
      λ comment among h. elim among [
        | inl same ↦
            let wrong : true ≡ false = sym h ∙ (ap (λ x. contains x.body heading) same ∙ other) in
            cc
        | inr later ↦ no_other comment later h
      ],
    )
    | inr (comment, among, h, is) ↦ inr (comment, inr among, h, rw (first_workpad, other) is)
  ]
]

-- A workpad whose identifier all workpads have is the one that is found.
only_one :
    (listed : List Comment) (workpad : Comment)
    → In workpad listed
    → IsWorkpad workpad
    → ((comment : Comment) → In comment listed → IsWorkpad comment → comment.id ≡ workpad.id)
    → OneWorkpad listed × (first_workpad listed ≡ workpad.id)
only_one listed workpad among h unique = (
  λ a b a_in b_in a_is b_is. unique a a_in a_is ∙ sym (unique b b_in b_is),
  elim (first_workpad-Found listed) [
    | inl (nothing, no_other) ↦ absurd (no_other workpad among h)
    | inr (comment, there, is, first) ↦ first ∙ unique comment there is
  ],
)

module _ {S : Type 0} (api : CommentApi S) (documented : IsDocumented api) where
  -- The issue has this one workpad, it is found, and it has an identifier.
  abbrev pub Keeps : S → Text → Text → Type 0
  Keeps s issue_id id =
      (text_eq id [] ≡ false)
      × (listed : List Comment) × (api.comments s issue_id ≡ ok listed)
      × OneWorkpad listed
      × (first_workpad listed ≡ id)

  kept :
      (s : S) (issue_id : Text) (listed : List Comment) (workpad : Comment)
      → api.comments s issue_id ≡ ok listed
      → In workpad listed
      → IsWorkpad workpad
      → ((comment : Comment) → In comment listed → IsWorkpad comment → comment.id ≡ workpad.id)
      → Keeps s issue_id workpad.id
  kept s issue_id listed workpad known among h unique =
      let (one, first) = only_one listed workpad among h unique in
      (
        All-In Named workpad listed (documented.names s issue_id listed known) among,
        listed,
        known,
        one,
        first,
      )

  -- The workpad that is there before, if there is one, and the one that is there then.
  abbrev Upserted : S → Text → List Comment → Type 0
  Upserted now issue_id listed =
      (id : Text) × ((first_workpad listed ≡ []) ⊎ (first_workpad listed ≡ id))
      × Keeps now issue_id id

  created-Upserted :
      (s now : S) (issue_id body : Text) (listed : List Comment)
      → contains body heading ≡ true
      → api.comments s issue_id ≡ ok listed
      → length listed < 50
      → first_workpad listed ≡ []
      → api.create s issue_id body ≡ (now, ok true)
      → Upserted now issue_id listed
  created-Upserted s now issue_id body listed h known short missing done =
      let (then_listed, then_known, created, among, keeps, origin) =
        documented.creates s now issue_id body listed done known short in
      (
        created.id,
        inl missing,
        kept now issue_id then_listed created then_known among (keeps h) (λ comment there is.
            elim (origin comment there) [
              | inl same ↦ ap (λ x. x.id) same
              | inr old ↦ elim (first_workpad-Found listed) [
                | inl (nothing, no_other) ↦ absurd (no_other comment old is)
                | inr (found, found_in, found_is, first) ↦
                    let named =
                      All-In Named found listed (documented.names s issue_id listed known)
                        found_in in
                    absurd (grind (arith, named, first, missing, (text_eq_iff found.id []).1))
              ]
            ]),
      )

  updated-Upserted :
      (s now : S) (issue_id body : Text) (listed : List Comment)
      → contains body heading ≡ true
      → api.comments s issue_id ≡ ok listed
      → length listed < 50
      → OneWorkpad listed
      → first_workpad listed ≢ []
      → api.update s (first_workpad listed) body ≡ (now, ok true)
      → Upserted now issue_id listed
  updated-Upserted s now issue_id body listed h known short one there done =
      elim (first_workpad-Found listed) [
        | inl (nothing, no_other) ↦ absurd (there nothing)
        | inr (found, found_in, found_is, first) ↦
            let (then_listed, then_known, origin, still) =
              documented.updates s now issue_id (first_workpad listed) body listed done known
                short in
            let (updated, among, same_id, keeps) = still found found_in (sym first) in
            (
              updated.id,
              inr (sym same_id),
              kept now issue_id then_listed updated then_known among (keeps h) (λ comment within is.
                  elim (origin comment within) [
                    | inl same ↦ same ∙ sym same_id
                    | inr old ↦
                        one comment found old found_in is found_is ∙ (sym first ∙ sym same_id)
                  ]),
            )
      ]

  confirmed-is : (r : Result Bool) → confirmed r ≡ ok tt → r ≡ ok true
  unfolding confirmed
  confirmed-is (ok true) h = refl
  confirmed-is (ok false) h = cc
  confirmed-is (err e) h = cc

  abbrev Result_of : S × Result Bool → S × Result (Unit {0})
  Result_of (now, success) = (now, confirmed success)

  called-is : (x : S × Result Bool) (now : S) → Result_of x ≡ (now, ok tt) → x ≡ (now, ok true)
  called-is (s, r) now h =
      let state : s ≡ now = ap (λ p. p.0) h in rw (state, confirmed-is r (ap (λ p. p.1) h)) refl

  upsert-Upserted :
      (s now : S) (issue_id body : Text) (listed : List Comment)
      → contains body heading ≡ true
      → api.comments s issue_id ≡ ok listed
      → length listed < 50
      → OneWorkpad listed
      → upsert_found api s issue_id body (ok (first_workpad listed)) ≡ (now, ok tt)
      → Upserted now issue_id listed
  unfolding upsert_found create_comment update_comment
  upsert-Upserted s now issue_id body listed h known short one =
      if_case (λ (x : S × Result (Unit {0})). x ≡ (now, ok tt) → Upserted now issue_id listed)
        (text_eq (first_workpad listed) [])
        (λ missing done.
          created-Upserted s now issue_id body listed h known short
            ((text_eq_iff (first_workpad listed) []).0 missing)
            (called-is (api.create s issue_id body) now done))
        (λ there done.
          updated-Upserted s now issue_id body listed h known short one
            (λ e. absurd (grind (arith, there, (text_eq_iff (first_workpad listed) []).1 e)))
            (called-is (api.update s (first_workpad listed) body) now done))

  found_in :
      (s : S) (issue_id : Text) (listed : List Comment)
      → api.comments s issue_id ≡ ok listed
      → find_workpad_comment api s issue_id ≡ ok (first_workpad listed)
  unfolding find_workpad_comment
  found_in s issue_id listed known = rw known refl

  -- Let Linear keep to what it documents, let the issue have fewer than 50 comments, of which at most one is
  -- a workpad, and let the new body have the heading. After an upsert that returns no error the issue has
  -- exactly one workpad, in whatever order Linear lists the comments, and it is the one that was there
  -- before if there was one; and the next upsert, whatever its body is, updates that comment and creates
  -- none.
  pub upsert_workpad-again :
      (s now : S) (issue_id body next_body : Text) (listed : List Comment)
      → contains body heading ≡ true
      → api.comments s issue_id ≡ ok listed
      → length listed < 50
      → OneWorkpad listed
      → upsert_workpad api s issue_id body ≡ (now, ok tt)
      → (id : Text) × ((first_workpad listed ≡ []) ⊎ (first_workpad listed ≡ id))
        × Keeps now issue_id id
        × (upsert_workpad api now issue_id next_body ≡ update_comment api now id next_body)
  unfolding upsert_workpad upsert_found
  upsert_workpad-again s now issue_id body next_body listed h known short one done =
      let finds = found_in s issue_id listed known in
      let (id, before, (named, then_listed, then_known, then_one, first)) =
        upsert-Upserted s now issue_id body listed h known short one
          (ap (upsert_found api s issue_id body) (sym finds) ∙ done) in
      (
        id,
        before,
        (named, then_listed, then_known, then_one, first),
        rw (found_in now issue_id then_listed then_known, first, named) refl,
      )
