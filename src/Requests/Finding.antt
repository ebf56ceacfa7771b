-- ===== src/Requests/Finding.antt =====
-- websocket/handlers.rs: which app is found by its name.
use Prim.Native.String.{◌++◌ as ◌+++◌}
use time_tracker.Common.{
  String, ◌≡◌, refl, ap, ◌∙◌, inl, inr, ◌⊎◌, true, false, Bool-cases, Option-cases, none, some,
  List, [], ◌∷◌, map, Has, is_text, ok, err, arith, eq_iff,
}
use time_tracker.Json.{Fields}
use time_tracker.Entities.{AppModel}
use time_tracker.Events.{by_name}
use time_tracker.Rows.{is_blank, not_blank}
use time_tracker.Rows.Shown.{shown_app}
use time_tracker.Messages.{app_message}
use time_tracker.Requests.{
  Service, World, ◌>>=◌, lift, parse_payload, extract_string_param, string_param,
}
use time_tracker.Requests.Apps.{find_app, handle_get_app_by_name}
use time_tracker.Requests.Listing.{IsUsual, listed_apps_lem, answer, print_and_send}

find_app-cases :
    (w : World) (name : String) (xs : List AppModel)
    → is_blank name ≡ false
    → ((a : AppModel) × Has a xs
        × (by_name name a ≡ true)
        × (find_app w name (map shown_app xs) ≡ some (shown_app a)))
      ⊎ (((a : AppModel) → Has a xs → by_name name a ≡ false)
          × (find_app w name (map shown_app xs) ≡ none))
find_app-cases w name [] full = inr ((λ a m. absurd m), refl)
find_app-cases w name (x ∷ xs) full = elim (Bool-cases (by_name name x)) [
  | inl h ↦ inl (x, inl refl, h, rw (same_name name x full ∙ h) refl)
  | inr h ↦ elim (find_app-cases w name xs full) [
    | inl (a, m, n, q) ↦ inl (a, inr m, n, rw (same_name name x full ∙ h) q)
    | inr (nowhere, q) ↦ inr (
      (λ a m. elim m [ inl e ↦ ap (by_name name) e ∙ h | inr m' ↦ nowhere a m' ]),
      rw (same_name name x full ∙ h) q,
    )
  ]
]
  where
    -- An empty text is no name.
    same_name :
        (name : String) (x : AppModel)
        → is_blank name ≡ false
        → is_text (not_blank x.name) name ≡ by_name name x
    same_name name x full = elim (Option-cases x.name) [
      | inl q ↦ rw q refl
      | inr (n, q) ↦ rw q (elim (Bool-cases (is_blank n)) [
        | inl b ↦ ground (arith, b, full, (eq_iff n "").0 b, eq_iff n name)
        | inr b ↦ rw b refl
      ])
    ]

module _ (w : World) (st : Service) (usual : IsUsual w st.registry.db) where
  -- With a lawful and reliable database, the derived serialization, and numbers of 32 bits: the answer to GetAppByName with a name that is not empty is a printed
  -- app of that name, and the error that it was not found exactly if no app has the name; nothing changes.
  pub handle_get_app_by_name_lem :
      (payload name : String) (params : Fields)
      → parse_payload w.reader payload ≡ ok params
      → string_param params "name" ≡ some name
      → is_blank name ≡ false
      → ((a : AppModel) × Has a st.registry.db.apps
          × (by_name name a ≡ true)
          × (handle_get_app_by_name w payload st ≡ (
            st,
            answer w.printer
                (w.printer.app_json (shown_app a))
                "Failed to serialize app"
                app_message,
          )))
        ⊎ (((a : AppModel) → Has a st.registry.db.apps → by_name name a ≡ false)
            × (handle_get_app_by_name w payload st
                ≡ (st, err ("App '" +++ (name +++ "' not found")))))
  unfolding handle_get_app_by_name ◌>>=◌ lift extract_string_param
  handle_get_app_by_name_lem payload name params parsed named full =
      let (xs, sel, q) = listed_apps_lem w st usual in
      elim (find_app-cases w name xs full) [
        | inl (a, m, n, f) ↦ inl (
          a,
          (sel.sound a m).0,
          n,
          rw (parsed, named, q, f)
              (print_and_send w.printer _ "Failed to serialize app" app_message st),
        )
        | inr (nowhere, f) ↦
            inr ((λ a m. nowhere a (sel.complete a m refl)), rw (parsed, named, q, f) refl)
      ]
