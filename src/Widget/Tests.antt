-- ===== src/Widget/Tests.antt =====
-- Runs of the widget.
use recif.Base.{◌≡◌, refl, true, false, some, List, [], ◌∷◌}
use recif.Text.{codes, trim, trim_start, trim_end, is_space, cons_end}
use recif.Widget.{
  user, agent, WidgetMessage, ChatWidget, reply_of, open_widget, close_widget, send, answer,
  on_widget_events,
}
use recif.Widget.Settled.{on_widget_events-replied}

abbrev typed : ChatWidget
typed = record { is_open = true; messages = []; input = codes " Hello "; loading = false }

abbrev hello : List WidgetMessage
hello =
    record { role = user; content = codes "Hello" }
    ∷ record { role = agent; content = reply_of (some (codes "{\"output\":\"Hi\"}")) }
    ∷ []

on_widget_events-replied_example :
    ((on_widget_events
        (send
          ∷ close_widget
          ∷ send
          ∷ open_widget
          ∷ answer (some (codes "{\"output\":\"Hi\"}"))
          ∷ [])
        typed).messages
      ≡ hello)
    × ((on_widget_events
          (send
            ∷ close_widget
            ∷ send
            ∷ open_widget
            ∷ answer (some (codes "{\"output\":\"Hi\"}"))
            ∷ [])
          typed).loading
        ≡ false)
unfolding trim trim_end trim_start is_space cons_end
on_widget_events-replied_example =
    on_widget_events-replied typed (close_widget ∷ send ∷ open_widget ∷ [])
      (some (codes "{\"output\":\"Hi\"}")) refl refl refl (refl, (refl, (refl, tt)))
