-- ===== src/Composer/Clone.antt =====
-- brightbean-studio/apps/composer/services.py, `clone_post`: a draft copy of a post.
use Prim.Native.String.{◌++◌ as ◌<>◌}
use bright_bean_paysys.Common.{ℕ, String, Option, none, [], ◌∷◌, ◌++◌, map, ◌==◌, filter}
use bright_bean_paysys.Store.{Post, PlatformPost, PostMedia, Store, children}
use bright_bean_paysys.Composer.Status.{draft}
use bright_bean_paysys.Composer.Services.{or_else}

-- `f"Copy of {post.title}" if post.title else ""`
unfoldable pub copied_title : String → String
copied_title String.[] = ""
copied_title (String.◌∷◌ c title) = "Copy of " <> String.◌∷◌ c title

abbrev pub copied_post : ℕ → ℕ → Option ℕ → Post → Post
copied_post now post_id author post = record {
  id = post_id;
  workspace_id = post.workspace_id;
  author = or_else author post.author;
  title = copied_title post.title;
  caption = post.caption;
  first_comment = post.first_comment;
  internal_notes = post.internal_notes;
  scheduled_at = none;
  published_at = none;
  proposed_publish_at = none;
  updated_at = now;
}

-- `key` gives the key of the copy of a row.
abbrev pub copied_channel : ℕ → ℕ → (ℕ → ℕ) → PlatformPost → PlatformPost
copied_channel now post_id key pp = record {
  id = key pp.id;
  post_id = post_id;
  social_account_id = pp.social_account_id;
  platform_specific_title = pp.platform_specific_title;
  platform_specific_caption = pp.platform_specific_caption;
  platform_specific_first_comment = pp.platform_specific_first_comment;
  status = draft;
  platform_post_id = "";
  publish_error = "";
  published_at = none;
  scheduled_at = none;
  retry_count = 0;
  next_retry_at = none;
  updated_at = now;
}

abbrev pub copied_media : ℕ → PostMedia → PostMedia
copied_media post_id pm = record pm { post_id = post_id }

-- `clone_post`
unfoldable pub clone_post : ℕ → ℕ → (ℕ → ℕ) → Option ℕ → Post → Store → Store
unfolding copied_title
clone_post now post_id key author post s = record s {
  posts = s.posts ++ copied_post now post_id author post ∷ [];
  platform_posts =
      s.platform_posts ++ map (copied_channel now post_id key) (children post.id s.platform_posts);
  post_media =
      s.post_media
      ++ map (copied_media post_id) (filter (λ pm. pm.post_id == post.id) s.post_media);
}
