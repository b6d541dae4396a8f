-- ===== src/Composer/Services/Examples.antt =====
-- Scheduling, drafting and creating posts on concrete rows.
use bright_bean_paysys.Common.{◌≡◌, refl, none, some, [], ◌∷◌, ok}
use bright_bean_paysys.Store.{unrestricted, Store}
use bright_bean_paysys.Composer.Status.{draft, scheduled, is, can_transition}
use bright_bean_paysys.Composer.Services.{
  NewPost, has_duplicate, create_post, transition_platform_post, persist, moved,
}
use bright_bean_paysys.Samples.{a_workspace, an_account, a_channel, a_store}

abbrev waiting : Store
waiting = a_store (a_channel 4 scheduled (some 50) ∷ [])

abbrev drafted : Store
drafted = persist 20 draft none (moved 20 draft (a_channel 4 scheduled (some 50))) waiting

drafts :
    transition_platform_post 20 unrestricted draft none (a_channel 4 scheduled (some 50)) waiting
    ≡ ok drafted
unfolding transition_platform_post can_transition is
drafts = refl

abbrev a_new_post : NewPost
a_new_post = record {
  caption = "hi";
  title = "";
  first_comment = "";
  internal_notes = "";
  scheduled_at = some 70;
  proposed_publish_at = none;
  author = some 5;
  status = scheduled;
  override_title = none;
  override_caption = none;
  override_first_comment = none;
  media_asset_ids = [];
}

created :
    (s : Store) × (create_post 20 2 6 (a_workspace unrestricted) an_account a_new_post waiting
      ≡ ok s)
unfolding create_post is has_duplicate
created = (_, refl)
