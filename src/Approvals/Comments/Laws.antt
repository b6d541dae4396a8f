-- ===== src/Approvals/Comments/Laws.antt =====
-- Which comments are shown, and that a deleted one is not (brightbean-studio/apps/approvals/
-- comments.py).
use bright_bean_paysys.Common.{
  ℕ, ◌≡◌, ◌≢◌, refl, ap, subst, inl, inr, ◌↔◌, Bool, true, false, not, ◌&&◌, ◌||◌, Option, none,
  some, is_some, List, [], ◌∷◌, Memᴰ, ◌==◌, ==_iff, arith, filter, find, All, Bool-cases, ok,
  then_ok, ok-injective, Memᴰ-filter, Memᴰ-map,
}
use bright_bean_paysys.Common.Lookup.{Memᴰ-of_filter, Memᴰ-of_map, All-Memᴰ}
use bright_bean_paysys.Common.Rows.{update_where}
use bright_bean_paysys.Common.Ordered.{order_by-Memᴰ}
use bright_bean_paysys.Store.{Post}
use bright_bean_paysys.Approvals.Comments.{
  PostComment, Talk, is_undeleted, is_external, is_live_comment, save_comment, membership_in,
  delete_found, delete_comment, is_client_member, is_child_of, active_replies, is_top_level,
  get_comments_for_post,
}

-- A comment with its replies, as it is shown to a user.
pub record IsShown (post : Post) (user : ℕ) (t : Talk) (c : PostComment)
    (replies : List PostComment) : Type 0 where
  pub stored : Memᴰ c t.comments
  pub on_post : c.post.id ≡ post.id
  pub live : is_undeleted c ≡ true
  pub top_level : is_some c.parent_comment ≡ false
  pub for_clients :
      is_client_member (membership_in user post.workspace_id t.memberships) ≡ true
      → is_external c.visibility ≡ true
  pub answers :
      (r : PostComment)
      → Memᴰ r replies
        ↔ Memᴰ r t.comments × (is_undeleted r ≡ true) × (is_child_of c.id r.parent_comment ≡ true)

active_replies-Memᴰ :
    (comments : List PostComment) (c r : PostComment)
    → Memᴰ r (active_replies comments c)
      ↔ Memᴰ r comments × (is_undeleted r ≡ true) × (is_child_of c.id r.parent_comment ≡ true)
unfolding active_replies
active_replies-Memᴰ comments c r =
    let p : PostComment → Bool = λ r. is_undeleted r && is_child_of c.id r.parent_comment in
    let i = order_by-Memᴰ (λ (r : PostComment). r.created_at) r (filter p comments) in
    (
      λ m.
          let (m_in, e) = Memᴰ-of_filter p r comments (i.0 m) in (m_in, ground arith, ground arith),
      λ (m, live, child). i.1 (Memᴰ-filter p r comments (rw (live, child) refl) m),
    )

get_comments_for_post-IsShown :
    (post : Post) (user : ℕ) (t : Talk) (c : PostComment) (replies : List PostComment)
    → Memᴰ (c, replies) (get_comments_for_post post user t)
    → IsShown post user t c replies
unfolding get_comments_for_post
get_comments_for_post-IsShown post user t c replies m =
    let only_external = is_client_member (membership_in user post.workspace_id t.memberships) in
    let p : PostComment → Bool =
      λ c. is_top_level post c && (not only_external || is_external c.visibility) in
    let (d, d_in, e) = Memᴰ-of_map _ (c, replies) _ m in
    let here = (order_by-Memᴰ (λ (c : PostComment). c.created_at) d _).0 d_in in
    let (stored, test) = Memᴰ-of_filter p d t.comments here in
    let c_eq : d ≡ c = ap (λ x. x.0) e in
    let r_eq : active_replies t.comments d ≡ replies = ap (λ x. x.1) e in
    shown d c replies c_eq r_eq stored test
  where
    shown :
        (d c : PostComment) (replies : List PostComment)
        → d ≡ c
        → active_replies t.comments d ≡ replies
        → Memᴰ d t.comments
        → (is_top_level post d
            && (not (is_client_member (membership_in user post.workspace_id t.memberships))
                || is_external d.visibility))
          ≡ true
        → IsShown post user t c replies
    shown d c replies c_eq r_eq stored test =
        subst (λ x. IsShown post user t x replies) c_eq
          (subst (IsShown post user t d) r_eq (record {
            stored = stored;
            on_post = grind (arith, ==_iff d.post.id post.id);
            live = ground arith;
            top_level = ground arith;
            for_clients = λ client. ground arith;
            answers = active_replies-Memᴰ t.comments d;
          }))

-- What a list of comments with their replies promises.
pub record IsListing (post : Post) (user : ℕ) (t : Talk) : Type 0 where
  pub sound :
      (c : PostComment) (replies : List PostComment)
      → Memᴰ (c, replies) (get_comments_for_post post user t)
      → IsShown post user t c replies
  pub complete :
      (c : PostComment)
      → Memᴰ c t.comments
      → is_top_level post c ≡ true
      → (is_client_member (membership_in user post.workspace_id t.memberships) ≡ true
          → is_external c.visibility ≡ true)
      → Memᴰ (c, active_replies t.comments c) (get_comments_for_post post user t)

may_see : (client seen : Bool) → (client ≡ true → seen ≡ true) → (not client || seen) ≡ true
may_see true seen f = f refl
may_see false seen f = refl

get_comments_for_post-complete :
    (post : Post) (user : ℕ) (t : Talk) (c : PostComment)
    → Memᴰ c t.comments
    → is_top_level post c ≡ true
    → (is_client_member (membership_in user post.workspace_id t.memberships) ≡ true
        → is_external c.visibility ≡ true)
    → Memᴰ (c, active_replies t.comments c) (get_comments_for_post post user t)
unfolding get_comments_for_post
get_comments_for_post-complete post user t c m top seen =
    let client = is_client_member (membership_in user post.workspace_id t.memberships) in
    let p : PostComment → Bool =
      λ c. is_top_level post c && (not client || is_external c.visibility) in
    let test : p c ≡ true = rw (top, may_see client (is_external c.visibility) seen) refl in
    Memᴰ-map (λ c. (c, active_replies t.comments c)) c _
      ((order_by-Memᴰ (λ (c : PostComment). c.created_at) c (filter p t.comments)).1
        (Memᴰ-filter p c t.comments test m))

-- The comments shown on a post are exactly its live comments that answer no other, for a client of
-- the workspace only the external ones. Each stands with exactly its live replies, whatever the
-- visibility of these.
pub get_comments_for_post-IsListing : (post : Post) (user : ℕ) (t : Talk) → IsListing post user t
get_comments_for_post-IsListing post user t = record {
  sound = get_comments_for_post-IsShown post user t;
  complete = get_comments_for_post-complete post user t;
}

-- The rows with a key are deleted.
All-deleted :
    (now k : ℕ) (xs : List PostComment)
    → All
        (λ c. c.id ≡ k → is_undeleted c ≡ false)
        (update_where
          (λ c. c.id == k)
          (λ c. record c { deleted_at = some now; updated_at = now })
          xs)
All-deleted now k [] = tt
All-deleted now k (x ∷ xs) = elim (Bool-cases (x.id == k)) [
  | inl e ↦ rw e (λ _. refl, All-deleted now k xs)
  | inr e ↦ rw e (λ d. grind (arith, ==_iff x.id k), All-deleted now k xs)
]

delete_found-comments :
    (now k user ws : ℕ) (t t' : Talk) (o : Option PostComment)
    → delete_found now k user ws t o ≡ ok t'
    → save_comment k (λ c. record c { deleted_at = some now; updated_at = now }) t ≡ t'
unfolding delete_found
delete_found-comments now k user ws t t' none h = cc
delete_found-comments now k user ws t t' (some c) h = ok-injective (then_ok _ _ h).1

delete_comment-comments :
    (now k user ws : ℕ) (t t' : Talk)
    → delete_comment now k user ws t ≡ ok t'
    → save_comment k (λ c. record c { deleted_at = some now; updated_at = now }) t ≡ t'
unfolding delete_comment
delete_comment-comments now k user ws t t' h =
    delete_found-comments now k user ws t t' (find (is_live_comment k) t.comments) h

-- A comment that was deleted is shown to nobody, not as a comment and not as a reply.
pub delete_comment-hides :
    (now k user ws : ℕ) (t t' : Talk) (post : Post) (reader : ℕ) (c : PostComment)
    (replies : List PostComment)
    → delete_comment now k user ws t ≡ ok t'
    → Memᴰ (c, replies) (get_comments_for_post post reader t')
    → (c.id ≢ k) × ((r : PostComment) → Memᴰ r replies → r.id ≢ k)
delete_comment-hides now k user ws t t' post reader c replies h m =
    let s = get_comments_for_post-IsShown post reader t' c replies m in
    let gone : (d : PostComment) → Memᴰ d t'.comments → d.id ≡ k → is_undeleted d ≡ false = λ d.
      subst (λ u. Memᴰ d u.comments → d.id ≡ k → is_undeleted d ≡ false)
        (delete_comment-comments now k user ws t t' h)
        (λ d_in.
          All-Memᴰ (λ c. c.id ≡ k → is_undeleted c ≡ false) _ d (All-deleted now k t.comments)
            d_in) in
    (
      λ e. let dead = gone c s.stored e in let live = s.live in cc,
      λ r r_in e.
          let (r_stored, live, child) = (s.answers r).0 r_in in let dead = gone r r_stored e in cc,
    )
