-- ===== src/Types/Topics.antt =====
-- crates/forge-types/src/topics.rs: the topic names.
use crabforge.Prelude.{List, [], ◌∷◌, ◌++◌, ℕ}
use crabforge.Str.{Text, codes}

abbrev pub events_users : Text
events_users = codes "forge.events.users"

abbrev pub events_repos : Text
events_repos = codes "forge.events.repos"

abbrev pub events_issues : Text
events_issues = codes "forge.events.issues"

abbrev pub events_prs : Text
events_prs = codes "forge.events.prs"

abbrev pub events_git_refs : Text
events_git_refs = codes "forge.events.git-refs"

abbrev pub events_ci : Text
events_ci = codes "forge.events.ci"

abbrev pub meta_catalog : Text
meta_catalog = codes "forge.meta.catalog"

abbrev pub git_refs : Text
git_refs = codes "forge.git.refs"

abbrev pub event_topics : List Text
event_topics =
    events_users ∷ events_repos ∷ events_issues ∷ events_prs ∷ events_git_refs ∷ events_ci ∷ []

-- `format!("forge.git.objects.{repo}")`, where `uuid_text` is the `Display` of a UUID.
unfoldable pub repo_objects : (ℕ → Text) → ℕ → Text
repo_objects uuid_text repo = codes "forge.git.objects." ++ uuid_text repo

abbrev pub webhooks_dlq : Text
webhooks_dlq = codes "forge.webhooks.dlq"

abbrev pub webhooks_deliveries : Text
webhooks_deliveries = codes "forge.webhooks.deliveries"
