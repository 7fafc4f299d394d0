-- ===== src/Schema/Built.antt =====
-- The history of each model in the migrations, against the class that declares it.
use doorito.Base.{
  ◌≡◌, refl, sym, ap, ◌∙◌, ◌⊎◌, inl, inr, false, Option, none, some, String, List, [], ◌∷◌, map,
  any, str_eq, eq_iff, Bool-cases,
}
use doorito.Schema.Fields.{Model}
use doorito.Schema.Migrator.{target, steps}
use doorito.Schema.Plan.{history, plan}
use doorito.Schema.Declared.{
  declared, models, outbox_event, webhook_endpoint, upload_batch, upload_file, upload_session,
  upload_part, portal_event_outbox,
}
use doorito.Schema.Same.{
  SameColumns, SameModel, Found, SameColumns-Found, history_absent, model_absent,
}

-- What the history of a name ends in, if no migration raises.
abbrev pub settled : Option (Option Model) → Option Model
settled none = none
settled (some m) = m

unfoldable pub migrated : String → Option Model
migrated n = settled (history n (steps plan) none)

SameModel-none : (a b : Option Model) → a ≡ none → b ≡ none → SameModel a b
SameModel-none a b h k = rw (h, k) tt

pub SameModel-left : (a b : Option Model) → a ≡ none → SameModel a b → b ≡ none
SameModel-left none none h same = refl
SameModel-left none (some b) h same = absurd same
SameModel-left (some a) b h same = cc h

SameModel-some :
    (o p : Option Model) (a m : Model)
    → o ≡ some a
    → p ≡ some m
    → a.options ≡ m.options
    → SameColumns a.fields m.fields
    → SameModel o p
SameModel-some o p a m h k options columns = rw (h, k) (options, columns)

abbrev or_else : Model → Option Model → Model
or_else m none = m
or_else m (some a) = a

module _ (auto_name : String → List String → String)
    (named_by_user : auto_name "portal_upload_file" ("uploaded_by" ∷ "-created_at" ∷ [])
      ≡ "portal_uplo_uploade_0016ce_idx")
    (named_by_status : auto_name "portal_upload_file" ("status" ∷ [])
      ≡ "portal_uplo_status_e50e20_idx") where
  -- No migration raises on this model, and it comes out as declared.
  unfoldable pub Built : String → Type 0
  Built n =
      (history n (steps plan) none ≡ some (migrated n))
      × ((n ≡ "accounts.user") ⊎ SameModel (migrated n) (declared auto_name n))

  -- A history that ends in a model with the options and the columns of the declared one.
  Built-as :
      (n : String) (m : Model)
      → let a = or_else m (migrated n) in
        history n (steps plan) none ≡ some (some a)
        → a.options ≡ m.options
        → Found m.fields a.fields
        → Found a.fields m.fields
        → declared auto_name n ≡ some m
        → Built n
  unfolding Built migrated
  Built-as n m ends options there back named =
      let a = or_else m (migrated n) in
      let at : migrated n ≡ some a = ap settled ends in
      (
        ends ∙ ap some (sym at),
        inr (
            SameModel-some (migrated n) (declared auto_name n) a m at named options
              (SameColumns-Found a.fields m.fields there back)),
      )

  outbox_event-Built : Built "common.outboxevent"
  unfolding migrated target Found
  outbox_event-Built = Built-as "common.outboxevent" outbox_event refl refl refl refl refl

  webhook_endpoint-Built : Built "common.webhookendpoint"
  unfolding migrated target Found
  webhook_endpoint-Built =
      Built-as "common.webhookendpoint" webhook_endpoint refl refl refl refl refl

  upload_batch-Built : Built "portal.uploadbatch"
  unfolding migrated target Found
  upload_batch-Built = Built-as "portal.uploadbatch" upload_batch refl refl refl refl refl

  upload_file-Built : Built "portal.uploadfile"
  unfolding migrated target Found
  upload_file-Built =
      Built-as "portal.uploadfile" (upload_file auto_name) refl
        (rw (named_by_user, named_by_status) refl) refl refl refl

  upload_session-Built : Built "portal.uploadsession"
  unfolding migrated target Found
  upload_session-Built = Built-as "portal.uploadsession" upload_session refl refl refl refl refl

  upload_part-Built : Built "portal.uploadpart"
  unfolding migrated target Found
  upload_part-Built = Built-as "portal.uploadpart" upload_part refl refl refl refl refl

  portal_event_outbox-Built : Built "portal.portaleventoutbox"
  unfolding migrated target Found
  portal_event_outbox-Built =
      Built-as "portal.portaleventoutbox" portal_event_outbox refl refl refl refl refl

  user-Built : Built "accounts.user"
  unfolding Built migrated target
  user-Built = (refl, inl refl)

  -- A name is this one, or it is not.
  split_at : (n k : String) → Built k → (str_eq n k ≡ false → Built n) → Built n
  split_at n k built other = elim (Bool-cases (str_eq n k)) [
    | inl same ↦ rw ((eq_iff n k).0 same) built
    | inr apart ↦ other apart
  ]

  -- A name of no operation and of no class.
  absent-Built :
      (n : String)
      → any (str_eq n) (map target (steps plan)) ≡ false
      → any (str_eq n) (map (λ p. p.0) (models auto_name)) ≡ false
      → Built n
  unfolding Built migrated
  absent-Built n h k =
      let at = history_absent n (steps plan) none h in
      (
        at ∙ ap some (sym (ap settled at)),
        inr (
            SameModel-none (migrated n) (declared auto_name n) (ap settled at)
              (model_absent n (models auto_name) k)),
      )

  pub every-Built : (n : String) → Built n
  unfolding target
  every-Built n = split_at n "accounts.user" user-Built λ h0.
      split_at n "common.outboxevent" outbox_event-Built λ h1.
        split_at n "common.webhookendpoint" webhook_endpoint-Built λ h2.
          split_at n "portal.uploadbatch" upload_batch-Built λ h3.
            split_at n "portal.uploadfile" upload_file-Built λ h4.
              split_at n "portal.uploadsession" upload_session-Built λ h5.
                split_at n "portal.uploadpart" upload_part-Built λ h6.
                  split_at n "portal.portaleventoutbox" portal_event_outbox-Built λ h7.
                    absent-Built n (rw (h0, h1, h2, h3, h4, h5, h6, h7) refl)
                      (rw (h1, h2, h3, h4, h5, h6, h7) refl)
