-- ===== src/Platform.antt =====
-- What the program takes from its JavaScript engine and this model does not define: the tables of
-- Unicode and of the locale, and the text forms of JSON. They are arguments of what uses them.
use kuviewer.Base.{Ordering, List, Text}
use kuviewer.Base.Dict.{Dict}
use kuviewer.Topology.Types.{SummaryValue}

pub record Platform : Type 0 where
  -- `String.prototype.toLowerCase`
  pub lower : Text → Text
  -- The sign of `String.prototype.localeCompare`
  pub locale_compare : Text → Text → Ordering
  -- The sign of `localeCompare` with `{ numeric: true, sensitivity: 'base' }`
  pub base_compare : Text → Text → Ordering
  -- `String(value)` of a summary's value
  pub text_of : SummaryValue → Text
  -- `JSON.stringify` of an array of strings, and of an object built from entries
  pub stringify_texts : List Text → Text
  pub stringify_object : Dict SummaryValue → Text
