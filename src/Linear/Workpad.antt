-- ===== src/Linear/Workpad.antt =====
-- UpsertWorkpad, findWorkpadComment and CreateComment of internal/integration/linear/client.go. Linear's
-- comments are an interface: a state, a query and two mutations.
pub mod Kept
use symphony_go.Prelude.{
  Bool, true, false, Text, codes, text_eq, contains, if◌then◌else◌, List, [], ◌∷◌, Result, ok, err,
  ◌>>=◌,
}

pub record Comment : Type 0 where
  pub id : Text
  pub body : Text

-- commentsQuery, which returns at most 50 comments of an issue, and the mutations, with their `success`.
pub record CommentApi (S : Type 0) : Type 0 where
  pub comments : S → Text → Result (List Comment)
  pub create : S → Text → Text → S × Result Bool
  pub update : S → Text → Text → S × Result Bool

abbrev pub heading : Text
heading = codes "## Codex Workpad"

-- The identifier of the first comment with the heading, or the empty one.
unfoldable pub first_workpad : List Comment → Text
unfolding contains
first_workpad [] = []
first_workpad (comment ∷ comments) =
    let rest = first_workpad comments in if contains comment.body heading then comment.id else rest

unfoldable pub confirmed : Result Bool → Result (Unit {0})
confirmed (ok true) = ok tt
confirmed (ok false) = err (codes "Linear returned success=false")
confirmed (err e) = err e

module _ {S : Type 0} (api : CommentApi S) where
  unfoldable pub find_workpad_comment : S → Text → Result Text
  unfolding first_workpad
  find_workpad_comment s issue_id =
      api.comments s issue_id >>= λ comments. ok (first_workpad comments)

  unfoldable pub create_comment : S → Text → Text → S × Result (Unit {0})
  unfolding confirmed
  create_comment s issue_id body =
      let (now, success) = api.create s issue_id body in (now, confirmed success)

  unfoldable pub update_comment : S → Text → Text → S × Result (Unit {0})
  unfolding confirmed
  update_comment s comment_id body =
      let (now, success) = api.update s comment_id body in (now, confirmed success)

  -- UpsertWorkpad behind findWorkpadComment.
  unfoldable pub upsert_found : S → Text → Text → Result Text → S × Result (Unit {0})
  unfolding create_comment update_comment
  upsert_found s issue_id body (err e) = (s, err e)
  upsert_found s issue_id body (ok comment_id) =
      if text_eq comment_id []
      then create_comment s issue_id body
      else update_comment s comment_id body

  unfoldable pub upsert_workpad : S → Text → Text → S × Result (Unit {0})
  unfolding find_workpad_comment upsert_found
  upsert_workpad s issue_id body = upsert_found s issue_id body (find_workpad_comment s issue_id)
