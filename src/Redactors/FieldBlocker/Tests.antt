-- ===== src/Redactors/FieldBlocker/Tests.antt =====
-- Runs of FieldBlockerRedactor.
use fapilog.Prelude.{◌≡◌, refl, true, some, [], ◌∷◌, codes, to_lower}
use fapilog.Prelude.Value.{str, Fields, end, field, get}
use fapilog.Redactors.FieldBlocker.{
  FieldBlocker, redact, walk, walked, is_blocked, is_container, gives_up,
}
use fapilog.Redactors.FieldBlocker.Blocked.{AreBlocked, redact-AreBlocked}
use fapilog.Redactors.FieldBlocker.Dropped.{redact-drop}

abbrev blocker : FieldBlocker
blocker = record {
  effective_blocklist = codes "body" ∷ [];
  replacement = codes "[X]";
  max_depth = 16;
  max_scanned = 1;
  on_drop = true;
}

abbrev short : Fields
short = field (codes "Body") (str (codes "secret")) end

abbrev long : Fields
long = field (codes "body") (str (codes "secret")) (field (codes "a") (str []) end)

redact-AreBlocked_example : AreBlocked blocker (redact blocker short).0
unfolding walked walk is_blocked to_lower
redact-AreBlocked_example = redact-AreBlocked blocker short refl

redact-drop_example : get (codes "body") (redact blocker long).0 ≡ some (str (codes "secret"))
unfolding walked walk is_blocked to_lower gives_up get is_container
redact-drop_example = redact-drop blocker long (codes "body") (str (codes "secret")) refl refl refl
