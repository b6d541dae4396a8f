-- ===== src/Publisher/Frames.antt =====
-- A poll leaves the channels of a post that is on hold alone (brightbean-studio/apps/publisher/
-- engine.py).
use bright_bean_paysys.Common.{
  ℕ, ◌≡◌, ◌≢◌, refl, sym, ◌∙◌, ap, subst, inl, inr, Bool, true, false, ◌&&◌, List, [], ◌∷◌, map,
  arith, All, Bool-cases, Memᴰ, Memᴰ-filter, filter, any, is_empty, ◌==◌, ==_iff,
}
use bright_bean_paysys.Common.Rows.{update_where, All-update_where}
use bright_bean_paysys.Common.Lookup.{any-Memᴰ, any-IsFound, All-Memᴰ}
use bright_bean_paysys.Store.{PlatformPost, Store, children}
use bright_bean_paysys.Composer.Status.{scheduled, publishing, on_hold, is, is_iff}
use bright_bean_paysys.Publisher.Attempt.{Outcome, attempted, publish_platform_post, is_blocked}
use bright_bean_paysys.Publisher.Laws.{filter-All, after_success-rows}
use bright_bean_paysys.Publisher.Holds.{is_held-blocks}
use bright_bean_paysys.Publisher.Engine.{
  is_held, claimed, mark_publishing, publish_all, publish_post_group, publish_groups, retrying,
  save_retrying, when_success, sync_parent_published_at, retry_one, retry_all, process_retries,
  is_due, is_retry_due, get_due_platform_posts, group_posts, poll_and_publish,
}

attempted_key :
    (now : ℕ) (blocked : Bool) (outcome : Outcome) (pp : PlatformPost)
    → ((attempted now blocked outcome pp).id ≡ pp.id)
      × ((attempted now blocked outcome pp).post_id ≡ pp.post_id)
unfolding attempted
attempted_key now blocked outcome pp = ground arith

is_held_same :
    (k : ℕ) (xs ys : List PlatformPost)
    → children k xs ≡ children k ys
    → is_held k xs ≡ is_held k ys
unfolding is_held
is_held_same k xs ys e = ap (any (λ q. is q.status on_hold)) e

-- `owner` tells the post of each key, so that a key has one post.
abbrev pub IsOwnedBy : (ℕ → ℕ) → PlatformPost → Type 0
IsOwnedBy owner q = owner q.id ≡ q.post_id

module _ (owner : ℕ → ℕ) (k : ℕ) where
  abbrev IsOwned : PlatformPost → Type 0
  IsOwned = IsOwnedBy owner

  -- The table after some writes: still with one post for each key, and the post `k` as it was.
  record Frame (s t : Store) : Type 0 where
    owned : All IsOwned t.platform_posts
    same : children k t.platform_posts ≡ children k s.platform_posts

  Frame-trans : (s t u : Store) → Frame s t → Frame t u → Frame s u
  Frame-trans s t u f g = record { owned = g.owned; same = g.same ∙ f.same }

  Elsewhere : PlatformPost → Type 0
  Elsewhere q = IsOwned q × (q.post_id ≢ k)

  update-children :
      (p : PlatformPost → Bool) (f : PlatformPost → PlatformPost) (rows : List PlatformPost)
      → All IsOwned rows
      → ((q : PlatformPost) → IsOwned q → p q ≡ true → (q.post_id ≢ k) × ((f q).post_id ≢ k))
      → children k (update_where p f rows) ≡ children k rows
  update-children p f [] o h = refl
  update-children p f (q ∷ rows) o h = elim (Bool-cases (p q)) [
    | inl e ↦
        let (a, b) = h q o.0 e in
        rw (e, dropped q a, dropped (f q) b) (update-children p f rows o.1 h)
    | inr e ↦ rw (e, update-children p f rows o.1 h) refl
  ]
    where
      dropped : (r : PlatformPost) → r.post_id ≢ k → (r.post_id == k) ≡ false
      dropped r n = ground (arith, ==_iff r.post_id k)

  saved-Frame :
      (pp row : PlatformPost) (s : Store)
      → Elsewhere pp
      → row.id ≡ pp.id
      → row.post_id ≡ pp.post_id
      → All IsOwned s.platform_posts
      → Frame s (record s {
        platform_posts = update_where (λ q. q.id == pp.id) (λ _. row) s.platform_posts;
      })
  unfolding Elsewhere
  saved-Frame pp row s e i j o = record {
    owned =
        All-update_where IsOwned (λ q. q.id == pp.id) (λ _. row) (λ q _ _. ap owner i ∙ e.0 ∙ sym j)
          s.platform_posts o;
    same =
        update-children (λ q. q.id == pp.id) (λ _. row) s.platform_posts o
          (λ q own t.
            let d : q.id ≡ pp.id = (==_iff q.id pp.id).0 t in
            (λ c. e.1 (sym e.0 ∙ ap owner (sym d) ∙ own ∙ c), λ c. e.1 (sym j ∙ c)));
  }

  published-Frame :
      (now : ℕ) (dispatch : PlatformPost → Outcome) (pp : PlatformPost) (s : Store)
      → Elsewhere pp
      → All IsOwned s.platform_posts
      → Frame s (publish_platform_post now dispatch pp s).1
  unfolding publish_platform_post
  published-Frame now dispatch pp s e o =
      let (i, j) = attempted_key now (is_blocked now pp s) (dispatch pp) pp in
      let f = saved-Frame pp (attempted now (is_blocked now pp s) (dispatch pp) pp) s e i j o in
      record { owned = rw after_success-rows f.owned; same = rw after_success-rows f.same }

  publish_all-Frame :
      (now : ℕ) (dispatch : PlatformPost → Outcome) (pps : List PlatformPost) (s : Store)
      → All Elsewhere pps
      → All IsOwned s.platform_posts
      → Frame s (publish_all now dispatch pps s)
  unfolding publish_all
  publish_all-Frame now dispatch [] s e o = record { owned = o; same = refl }
  publish_all-Frame now dispatch (pp ∷ pps) s e o =
      let f = published-Frame now dispatch pp s e.0 o in
      Frame-trans s _ _ f (publish_all-Frame now dispatch pps _ e.1 f.owned)

  mark_publishing-Frame :
      (pps : List PlatformPost) (s : Store)
      → All Elsewhere pps
      → All IsOwned s.platform_posts
      → Frame s (mark_publishing pps s)
  unfolding mark_publishing Elsewhere
  mark_publishing-Frame pps s e o = record {
    owned =
        All-update_where IsOwned (λ q. any (λ pp. pp.id == q.id) pps)
          (λ q. record q { status = publishing }) (λ q _ b. b) s.platform_posts o;
    same =
        update-children (λ q. any (λ pp. pp.id == q.id) pps) (λ q. record q { status = publishing })
          s.platform_posts o
          (λ q own t.
            let (pp, m, d) = any-IsFound (λ pp. pp.id == q.id) pps t in
            let (mine, other) = All-Memᴰ Elsewhere pps pp e m in
            let same_key : pp.id ≡ q.id = (==_iff pp.id q.id).0 d in
            let there : q.post_id ≢ k = λ c. other (sym mine ∙ ap owner same_key ∙ own ∙ c) in
            (there, there));
  }

  children-Elsewhere :
      (j : ℕ) (rows : List PlatformPost)
      → j ≢ k
      → All IsOwned rows
      → All Elsewhere (children j rows)
  unfolding Elsewhere
  children-Elsewhere j [] n o = tt
  children-Elsewhere j (q ∷ rows) n o = elim (Bool-cases (q.post_id == j)) [
    | inl e ↦
        rw e ((o.0, λ c. n (sym ((==_iff q.post_id j).0 e) ∙ c)), children-Elsewhere j rows n o.1)
    | inr e ↦ rw e (children-Elsewhere j rows n o.1)
  ]

  group-Frame :
      (now : ℕ) (dispatch : PlatformPost → Outcome) (j : ℕ) (ids : List ℕ) (s : Store)
      → is_held k s.platform_posts ≡ true
      → All IsOwned s.platform_posts
      → Frame s (publish_post_group now dispatch j ids s)
  unfolding publish_post_group claimed
  group-Frame now dispatch j ids s h o = elim (Bool-cases (is_held j s.platform_posts)) [
    | inl e ↦ rw e (record { owned = o; same = refl })
    | inr e ↦
        let n : j ≢ k = λ c. let h' = ap (λ x. is_held x s.platform_posts) c ∙ h in cc in
        let pps = claimed j ids s in
        elim (Bool-cases (is_empty pps)) [
          | inl x ↦ rw (e, x) (record { owned = o; same = refl })
          | inr x ↦
              let there : All Elsewhere pps =
                filter-All Elsewhere (λ q. any (λ i. i == q.id) ids && is q.status scheduled)
                  (children j s.platform_posts) (children-Elsewhere j s.platform_posts n o) in
              let f = mark_publishing-Frame pps s there o in
              let g = publish_all-Frame now dispatch pps (mark_publishing pps s) there f.owned in
              let both = Frame-trans s _ _ f g in
              rw (e, x) (record { owned = both.owned; same = both.same })
        ]
  ]

  still_held :
      (s t : Store)
      → Frame s t
      → is_held k s.platform_posts ≡ true
      → is_held k t.platform_posts ≡ true
  still_held s t f h = is_held_same k t.platform_posts s.platform_posts f.same ∙ h

  groups-Frame :
      (now : ℕ) (dispatch : PlatformPost → Outcome) (due : List PlatformPost) (js : List ℕ)
      (s : Store)
      → is_held k s.platform_posts ≡ true
      → All IsOwned s.platform_posts
      → Frame s (publish_groups now dispatch due js s)
  unfolding publish_groups
  groups-Frame now dispatch due [] s h o = record { owned = o; same = refl }
  groups-Frame now dispatch due (j ∷ js) s h o =
      let f = group-Frame now dispatch j (map (λ pp. pp.id) (children j due)) s h o in
      Frame-trans s _ _ f (groups-Frame now dispatch due js _ (still_held s _ f h) f.owned)

  success-Frame :
      (done : Bool) (now j : ℕ) (s t : Store)
      → Frame s t
      → Frame s (when_success done (sync_parent_published_at now j) t)
  unfolding sync_parent_published_at
  success-Frame true now j s t f = record { owned = f.owned; same = f.same }
  success-Frame false now j s t f = f

  retrying-Frame :
      (now : ℕ) (pp : PlatformPost) (s : Store)
      → Elsewhere pp
      → All IsOwned s.platform_posts
      → Frame s (save_retrying now pp s)
  unfolding Elsewhere
  retrying-Frame now pp s e o = record {
    owned =
        All-update_where IsOwned (λ q. q.id == pp.id) (retrying now) (λ q _ c. c) s.platform_posts
          o;
    same =
        update-children (λ q. q.id == pp.id) (retrying now) s.platform_posts o
          (λ q own t.
            let d : q.id ≡ pp.id = (==_iff q.id pp.id).0 t in
            let there : q.post_id ≢ k = λ c. e.1 (sym e.0 ∙ ap owner (sym d) ∙ own ∙ c) in
            (there, there));
  }

  retry_one-Frame :
      (now : ℕ) (dispatch : PlatformPost → Outcome) (pp : PlatformPost) (s : Store)
      → IsOwned pp
      → is_held k s.platform_posts ≡ true
      → All IsOwned s.platform_posts
      → Frame s (retry_one now dispatch pp s)
  unfolding retry_one Elsewhere
  retry_one-Frame now dispatch pp s b h o =
      elim (Bool-cases (is_held pp.post_id s.platform_posts)) [
        | inl e ↦ rw e (record { owned = o; same = refl })
        | inr e ↦
            let n : pp.post_id ≢ k =
              λ c. let h' = ap (λ x. is_held x s.platform_posts) c ∙ h in cc in
            let saved = save_retrying now pp s in
            let row = retrying now pp in
            let after = publish_platform_post now dispatch row saved in
            let f = retrying-Frame now pp s (b, n) o in
            let g = published-Frame now dispatch row saved (b, n) f.owned in
            rw e (success-Frame after.0 now pp.post_id s after.1 (Frame-trans s _ _ f g))
      ]

  retry_all-Frame :
      (now : ℕ) (dispatch : PlatformPost → Outcome) (pps : List PlatformPost) (s : Store)
      → All IsOwned pps
      → is_held k s.platform_posts ≡ true
      → All IsOwned s.platform_posts
      → Frame s (retry_all now dispatch pps s)
  unfolding retry_all
  retry_all-Frame now dispatch [] s b h o = record { owned = o; same = refl }
  retry_all-Frame now dispatch (pp ∷ pps) s b h o =
      let f = retry_one-Frame now dispatch pp s b.0 h o in
      Frame-trans s _ _ f (retry_all-Frame now dispatch pps _ b.1 (still_held s _ f h) f.owned)

  poll-Frame :
      (now : ℕ) (dispatch : PlatformPost → Outcome) (s : Store)
      → is_held k s.platform_posts ≡ true
      → All IsOwned s.platform_posts
      → Frame s (poll_and_publish now dispatch s)
  unfolding poll_and_publish process_retries
  poll-Frame now dispatch s h o =
      let due = get_due_platform_posts now s in
      let t = publish_groups now dispatch due (group_posts due) s in
      let f = groups-Frame now dispatch due (group_posts due) s h o in
      let g =
        retry_all-Frame now dispatch (filter (is_retry_due now t) t.platform_posts) t
          (filter-All IsOwned (is_retry_due now t) t.platform_posts f.owned) (still_held s t f h)
          f.owned in
      Frame-trans s t _ f g

-- Let a channel `q` be on hold, and let each key of a channel belong to one post. A poll leaves every
-- channel of the post of `q` exactly as it was, whatever is due and whatever the platforms answer. So
-- do the groups of any rows and the retries of any rows that were selected before the hold came; and
-- the two queries select no row of the post.
pub poll_and_publish-children :
    (owner : ℕ → ℕ) (now : ℕ) (dispatch : PlatformPost → Outcome) (s : Store) (q r : PlatformPost)
    (due retries : List PlatformPost)
    → All (IsOwnedBy owner) s.platform_posts
    → All (IsOwnedBy owner) retries
    → Memᴰ q s.platform_posts
    → q.status ≡ on_hold
    → r.post_id ≡ q.post_id
    → (children q.post_id (poll_and_publish now dispatch s).platform_posts
        ≡ children q.post_id s.platform_posts)
      × (children q.post_id (publish_groups now dispatch due (group_posts due) s).platform_posts
          ≡ children q.post_id s.platform_posts)
      × (children q.post_id (retry_all now dispatch retries s).platform_posts
          ≡ children q.post_id s.platform_posts)
      × (is_due now s r ≡ false)
      × (is_retry_due now s r ≡ false)
unfolding is_held
poll_and_publish-children owner now dispatch s q r due retries o b m e same_post =
    let k = q.post_id in
    let mine = Memᴰ-filter (λ r. r.post_id == k) q s.platform_posts ((==_iff k k).1 refl) m in
    let held : is_held k s.platform_posts ≡ true =
      any-Memᴰ (λ r. is r.status on_hold) (children k s.platform_posts) q mine
        ((is_iff q.status on_hold).1 e) in
    let held_r : is_held r.post_id s.platform_posts ≡ true =
      subst (λ j. is_held j s.platform_posts ≡ true) (sym same_post) held in
    let (none_due, none_retried, _, _) = is_held-blocks now dispatch [] r s held_r in
    (
      (poll-Frame owner k now dispatch s held o).same,
      (groups-Frame owner k now dispatch due (group_posts due) s held o).same,
      (retry_all-Frame owner k now dispatch retries s b held o).same,
      none_due,
      none_retried,
    )
