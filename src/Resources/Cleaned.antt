-- ===== src/Resources/Cleaned.antt =====
-- What is left of a pool after `cleanup` and `start`.
use fapilog.Prelude.{◌≤◌, ◌≡◌, []}
use fapilog.Resources.{Pool}

-- nothing idle, nothing held, and no room for a new resource
abbrev IsDead : Pool → Type 0
IsDead p = (p.idle ≡ []) × (p.held ≡ []) × (p.max_size ≤ p.created_count)
