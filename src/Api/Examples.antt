-- ===== src/Api/Examples.antt =====
-- The daily cap on concrete rows (brightbean-studio/apps/api/limits.py).
use bright_bean_paysys.Common.{none, [], ◌∷◌}
use bright_bean_paysys.Store.{Store}
use bright_bean_paysys.Composer.Status.{published}
use bright_bean_paysys.Samples.{a_channel, a_store}

-- one post on a channel with a cap of one
abbrev store : Store
store = a_store (a_channel 4 published none ∷ [])
