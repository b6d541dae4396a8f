-- ===== src/Composer/Status.antt =====
-- brightbean-studio/apps/composer/models.py (the states of a PlatformPost and their transitions)
-- and brightbean-studio/apps/composer/status.py (the status that a Post shows).
pub mod Aggregate
pub mod Meaning
pub mod Machine
mod Examples
use bright_bean_paysys.Common.{
  ℕ, ◌≡◌, ap, ◌∙◌, sym, Bool, true, false, ◌&&◌, ◌||◌, List, [], ◌∷◌, arith, ◌↔◌, ◌==◌, ==_iff,
  if◌then◌else◌, leb, any, all, length, refl,
}

-- The strings of `PlatformPost.Status`, and `partially_published`, which only the aggregate has.
pub data Status : Type 0 where
  draft pending_review pending_client approved changes_requested rejected : Status
  scheduled publishing published failed on_hold partially_published : Status

abbrev pub index : Status → ℕ
index draft = 0
index pending_review = 1
index pending_client = 2
index approved = 3
index changes_requested = 4
index rejected = 5
index scheduled = 6
index publishing = 7
index published = 8
index failed = 9
index on_hold = 10
index partially_published = 11

-- `s == t` of the two strings
unfoldable pub is : Status → Status → Bool
is s t = index s == index t

abbrev pub is_in : Status → List Status → Bool
is_in s [] = false
is_in s (t ∷ ts) = is s t || is_in s ts

-- `VALID_TRANSITIONS`, with the empty set for a key that it lacks
unfoldable pub valid_transitions : Status → List Status
valid_transitions draft = pending_review ∷ scheduled ∷ publishing ∷ []
valid_transitions pending_review = approved ∷ changes_requested ∷ rejected ∷ []
valid_transitions approved =
    pending_client ∷ scheduled ∷ publishing ∷ draft ∷ on_hold ∷ pending_review ∷ []
valid_transitions pending_client = approved ∷ changes_requested ∷ rejected ∷ []
valid_transitions changes_requested = pending_review ∷ draft ∷ []
valid_transitions rejected = draft ∷ pending_review ∷ []
valid_transitions scheduled = publishing ∷ draft ∷ []
valid_transitions publishing = published ∷ failed ∷ scheduled ∷ []
valid_transitions failed = publishing ∷ draft ∷ scheduled ∷ []
valid_transitions on_hold = approved ∷ draft ∷ changes_requested ∷ []
valid_transitions published = []
valid_transitions partially_published = []

unfoldable pub can_transition : Status → Status → Bool
unfolding valid_transitions
can_transition s t = is_in t (valid_transitions s)

-- `_rank` of `derive_post_status`: the position in `_WORKFLOW_ORDER`, and its length for `failed`,
-- which the list does not hold.
unfoldable pub rank : Status → ℕ
rank draft = 0
rank changes_requested = 1
rank rejected = 2
rank on_hold = 3
rank pending_review = 4
rank pending_client = 5
rank approved = 6
rank scheduled = 7
rank publishing = 8
rank partially_published = 9
rank published = 10
rank failed = 11

-- `_TERMINAL`
unfoldable pub is_terminal : Status → Bool
is_terminal s = is s published || is s failed

-- `set(values)`, in the order of the last occurrences
unfoldable pub set_of : List Status → List Status
set_of [] = []
set_of (x ∷ xs) = let rest = set_of xs in if is_in x rest then rest else x ∷ rest

-- `min(unique, key=_rank)` over a set with a first element
unfoldable pub min_rank : Status → List Status → Status
min_rank s [] = s
min_rank s (x ∷ xs) = min_rank (if leb (rank s) (rank x) then s else x) xs

-- the last branch: the lowest state, unless a hold would hide a published channel
unfoldable pub lowest : List Status → Status
unfolding min_rank
lowest [] = draft
lowest (s ∷ xs) =
    let r = min_rank s xs in
    if is r on_hold && is_in published (s ∷ xs) then partially_published else r

unfoldable pub combine_terminal : List Status → Status
combine_terminal unique =
    if is_in published unique && is_in failed unique
    then partially_published
    else if all (λ s. is s published) unique
    then published
    else failed

-- `derive_post_status`. Every modelled status is a non-empty string, so the filter at its start
-- keeps all of them.
unfoldable pub derive_post_status : List Status → Status
unfolding set_of lowest combine_terminal
derive_post_status [] = draft
derive_post_status (v ∷ vs) =
    let unique = set_of (v ∷ vs) in
    if length unique == 1
    then v
    else if all is_terminal unique
    then combine_terminal unique
    else lowest unique

of_index : ℕ → Status
of_index n =
    if n == 0
    then draft
    else if n == 1
    then pending_review
    else if n == 2
    then pending_client
    else if n == 3
    then approved
    else if n == 4
    then changes_requested
    else if n == 5
    then rejected
    else if n == 6
    then scheduled
    else if n == 7
    then publishing
    else if n == 8
    then published
    else if n == 9
    then failed
    else if n == 10
    then on_hold
    else partially_published

of_index-index : (s : Status) → of_index (index s) ≡ s
unfolding of_index
of_index-index draft = refl
of_index-index _ = refl

-- The ranks tell the statuses apart, so the minimum of a set does not depend on its order.
of_rank : ℕ → Status
of_rank n =
    if n == 0
    then draft
    else if n == 1
    then changes_requested
    else if n == 2
    then rejected
    else if n == 3
    then on_hold
    else if n == 4
    then pending_review
    else if n == 5
    then pending_client
    else if n == 6
    then approved
    else if n == 7
    then scheduled
    else if n == 8
    then publishing
    else if n == 9
    then partially_published
    else if n == 10
    then published
    else failed

of_rank-rank : (s : Status) → of_rank (rank s) ≡ s
unfolding of_rank rank
of_rank-rank draft = refl
of_rank-rank _ = refl

pub rank-injective : (s t : Status) → rank s ≡ rank t → s ≡ t
rank-injective s t h = sym (of_rank-rank s) ∙ ap of_rank h ∙ of_rank-rank t

pub is_iff : (s t : Status) → (is s t ≡ true) ↔ (s ≡ t)
unfolding is
is_iff s t = (
  λ h. sym (of_index-index s) ∙ ap of_index ((==_iff (index s) (index t)).0 h) ∙ of_index-index t,
  λ e. (==_iff (index s) (index t)).1 (ap index e),
)
