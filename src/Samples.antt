-- ===== src/Samples.antt =====
-- Rows that the examples of the components share. No source file is modelled here.
use bright_bean_paysys.Common.{ℕ, false, Option, none, some, List, [], ◌∷◌}
use bright_bean_paysys.Store.{
  Workspace, ApprovalWorkflowMode, SocialAccount, connected, Post, PlatformPost, Queue, QueueEntry,
  Store,
}
use bright_bean_paysys.Composer.Status.{Status}

abbrev pub a_workspace : ApprovalWorkflowMode → Workspace
a_workspace mode = record {
  id = 1;
  organization_id = 9;
  approval_workflow_mode = mode;
  is_archived = false;
}

abbrev pub an_account : SocialAccount
an_account = record {
  id = 3;
  workspace_id = 1;
  platform = "tiktok";
  connection_status = connected;
  daily_post_limit_override = some 1;
}

abbrev pub a_post : ℕ → Post
a_post k = record {
  id = k;
  workspace_id = 1;
  author = some 5;
  title = "";
  caption = "hello";
  first_comment = "";
  internal_notes = "";
  scheduled_at = none;
  published_at = none;
  proposed_publish_at = none;
  updated_at = 10;
}

-- a child of post 1 on channel 3, last saved at second 10
abbrev pub a_channel : ℕ → Status → Option ℕ → PlatformPost
a_channel k status time = record {
  id = k;
  post_id = 1;
  social_account_id = 3;
  platform_specific_title = none;
  platform_specific_caption = none;
  platform_specific_first_comment = none;
  status = status;
  platform_post_id = "";
  publish_error = "";
  published_at = none;
  scheduled_at = time;
  retry_count = 0;
  next_retry_at = none;
  updated_at = 10;
}

abbrev pub a_queue : Queue
a_queue = record { id = 7; social_account_id = 3 }

abbrev pub an_entry : QueueEntry
an_entry = record {
  id = 8;
  queue = a_queue;
  post_id = 1;
  position = 1;
  assigned_slot_datetime = none;
}

abbrev pub a_store : List PlatformPost → Store
a_store rows = record {
  posts = a_post 1 ∷ [];
  platform_posts = rows;
  post_media = [];
  media_assets = [];
  queue_entries = an_entry ∷ [];
  publish_logs = [];
  rate_limits = [];
}
