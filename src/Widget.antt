-- ===== src/Widget.antt =====
-- The chat widget, widget/src/app.tsx: sendMessage up to its request and from its answer on.
pub mod Settled
pub mod Output
mod Tests
use mathlib.Core.Option
use recif.Base.{
  ℕ, ◌==◌, Bool, true, false, not, ◌||◌, Option, none, some, List, [], ◌∷◌, ◌++◌, filter,
  if◌then◌else◌,
}
use recif.Text.{Text, codes, strip_prefix, trim}
use recif.Json.{nonempty}

pub data WidgetRole : Type 0 where
  user agent thinking : WidgetRole

pub record WidgetMessage : Type 0 where
  pub role : WidgetRole
  pub content : Text

pub record ChatWidget : Type 0 where
  pub is_open : Bool
  pub messages : List WidgetMessage
  pub input : Text
  pub loading : Bool

abbrev pub not_thinking : WidgetMessage → Bool
not_thinking m = elim m.role [ thinking ↦ false | _ ↦ true ]

-- What `[^"]*` takes in front of a quotation mark, if there is one.
unfoldable pub until_quote : Text → Option Text
until_quote [] = none
until_quote (c ∷ s) =
    let rest = Option.map (c ∷◌) (until_quote s) in if c == b'"' then some [] else rest

-- `text.match(/"output":"([^"]*)"/)`: the group at the first place where the expression fits.
unfoldable pub match_output : Text → Option Text
match_output [] = none
match_output (c ∷ s) =
    let later = match_output s in
    elim (strip_prefix (codes "\"output\":\"") (c ∷ s)) [
      | none ↦ later
      | some rest ↦ elim (until_quote rest) [ none ↦ later | some found ↦ some found ]
    ]

-- The output in the text of a response, or else the whole text.
unfoldable pub output_of : Text → Text
output_of text = Option.get_or (match_output text) text

abbrev pub placeholder : WidgetMessage
placeholder = record { role = thinking; content = codes "Thinking..." }

-- sendMessage up to its request, with the guard.
unfoldable pub begin_widget : ChatWidget → ChatWidget
begin_widget w = if not (nonempty (trim w.input)) || w.loading then w else record w {
  input = [];
  loading = true;
  messages = w.messages ++ (record { role = user; content = trim w.input } ∷ placeholder ∷ []);
}

-- What stands in the reply: the output of the text of the response, whatever its status, or an error
-- where the request or the reading throws.
unfoldable pub reply_of : Option Text → Text
reply_of none = codes "Error: Unable to reach agent."
reply_of (some text) = output_of text

-- From the answer on.
unfoldable pub end_widget : Option Text → ChatWidget → ChatWidget
end_widget answer w = record w {
  loading = false;
  messages =
      filter not_thinking w.messages ++ record { role = agent; content = reply_of answer } ∷ [];
}

pub data WidgetEvent : Type 0 where
  open_widget close_widget send : WidgetEvent
  type_text : Text → WidgetEvent
  answer : Option Text → WidgetEvent

-- An answer comes to a request that runs; the input is disabled meanwhile.
unfoldable pub on_widget : WidgetEvent → ChatWidget → ChatWidget
on_widget open_widget w = record w { is_open = true }
on_widget close_widget w = record w { is_open = false }
on_widget send w = begin_widget w
on_widget (type_text t) w = if w.loading then w else record w { input = t }
on_widget (answer a) w = if w.loading then end_widget a w else w

unfoldable pub on_widget_events : List WidgetEvent → ChatWidget → ChatWidget
on_widget_events [] w = w
on_widget_events (e ∷ es) w = on_widget_events es (on_widget e w)
