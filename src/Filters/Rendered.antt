-- ===== src/Filters/Rendered.antt =====
-- `str(v)`: a text is itself; for any other value the text is that of the parameter `render`.
use fapilog.Prelude.{Option, none, some, Text}
use fapilog.Prelude.Value.{Value, str}

unfoldable pub to_str : (Value → Text) → Value → Text
to_str render (str t) = t
to_str render v = render v

-- `str(event.get(key, default))`, given what `event.get(key)` finds
unfoldable pub to_str_or : (Value → Text) → Text → Option Value → Text
unfolding to_str
to_str_or render default none = default
to_str_or render default (some v) = to_str render v
