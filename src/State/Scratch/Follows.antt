-- ===== src/State/Scratch/Follows.antt =====
-- What the operations of the scratch store keep of a note.
use kai_daemon.Base.{String, ◌≡◌, refl, sym, ap, ◌∙◌, true, false, List, [], ◌∷◌, ◌++◌, All, arith}
use kai_daemon.State.Scratch.{
  ScratchNote, Update, sets_content, sets_type, sets_target_workflow, sets_ttl, sets_thread_ids,
  sets_id, sets_workflow_id, sets_session_id, sets_timestamp, sets_epistemic_origin, sets_lifecycle,
  sets_acknowledged_by, sets_other, is_immutable, any_immutable, contains, Lifecycle, archived,
  is_archived, validate_ttl, with_update, with_updates,
}
use mathlib.Core.List.{append_assoc, append-nil}

-- A later state of the same note: what identifies it and its epistemic origin are the same, no
-- acknowledgment is lost or reordered, and an archived note is archived.
pub record Follows (n n' : ScratchNote) : Type 0 where
  pub same_id : n'.id ≡ n.id
  pub same_workflow : n'.workflow_id ≡ n.workflow_id
  pub same_session : n'.session_id ≡ n.session_id
  pub same_timestamp : n'.timestamp ≡ n.timestamp
  pub same_origin : n'.epistemic_origin ≡ n.epistemic_origin
  pub acknowledged : (ws : List String) × (n'.acknowledged_by ≡ n.acknowledged_by ++ ws)
  pub stays_archived : is_archived n ≡ true → is_archived n' ≡ true

keeping :
    (n n' : ScratchNote)
    → n'.id ≡ n.id
    → n'.workflow_id ≡ n.workflow_id
    → n'.session_id ≡ n.session_id
    → n'.timestamp ≡ n.timestamp
    → n'.epistemic_origin ≡ n.epistemic_origin
    → n'.acknowledged_by ≡ n.acknowledged_by
    → n'.lifecycle ≡ n.lifecycle
    → Follows n n'
keeping n n' i w s t o a l = record {
  same_id = i;
  same_workflow = w;
  same_session = s;
  same_timestamp = t;
  same_origin = o;
  acknowledged = ([], a ∙ sym (append-nil _));
  stays_archived =
      λ h. ap (λ c. elim c [ Lifecycle.active ↦ false | Lifecycle.archived ↦ true ]) l ∙ h;
}

pub Follows-refl : (n : ScratchNote) → Follows n n
Follows-refl n = keeping n n refl refl refl refl refl refl refl

pub Follows-trans : (a b c : ScratchNote) → Follows a b → Follows b c → Follows a c
Follows-trans a b c f g =
    let (ws, e) = f.acknowledged in
    let (vs, d) = g.acknowledged in
    record {
      same_id = g.same_id ∙ f.same_id;
      same_workflow = g.same_workflow ∙ f.same_workflow;
      same_session = g.same_session ∙ f.same_session;
      same_timestamp = g.same_timestamp ∙ f.same_timestamp;
      same_origin = g.same_origin ∙ f.same_origin;
      acknowledged = (ws ++ vs, d ∙ ap (λ l. l ++ vs) e ∙ append_assoc a.acknowledged_by ws vs);
      stays_archived = λ h. g.stays_archived (f.stays_archived h);
    }

with_update-Follows :
    (n : ScratchNote) (u : Update) → is_immutable u ≡ false → Follows n (with_update n u)
unfolding with_update is_immutable contains
with_update-Follows n (sets_content v) h = keeping n _ refl refl refl refl refl refl refl
with_update-Follows n (sets_type v) h = keeping n _ refl refl refl refl refl refl refl
with_update-Follows n (sets_target_workflow v) h = keeping n _ refl refl refl refl refl refl refl
with_update-Follows n (sets_ttl v) h = keeping n _ refl refl refl refl refl refl refl
with_update-Follows n (sets_thread_ids v) h = keeping n _ refl refl refl refl refl refl refl
with_update-Follows n (sets_id v) h = cc
with_update-Follows n (sets_workflow_id v) h = cc
with_update-Follows n (sets_session_id v) h = cc
with_update-Follows n (sets_timestamp v) h = cc
with_update-Follows n (sets_epistemic_origin v) h = cc
with_update-Follows n (sets_lifecycle v) h = cc
with_update-Follows n (sets_acknowledged_by v) h = cc
with_update-Follows n (sets_other key) h = Follows-refl n

pub with_updates-Follows :
    (n : ScratchNote) (us : List Update) → any_immutable us ≡ false → Follows n (with_updates n us)
unfolding with_updates any_immutable
with_updates-Follows n [] h = Follows-refl n
with_updates-Follows n (u ∷ us) h =
    Follows-trans n (with_update n u) (with_updates (with_update n u) us)
      (with_update-Follows n u (ground arith))
      (with_updates-Follows (with_update n u) us (ground arith))

pub archive-Follows : (n : ScratchNote) → Follows n (record n { lifecycle = archived })
archive-Follows n = record {
  same_id = refl;
  same_workflow = refl;
  same_session = refl;
  same_timestamp = refl;
  same_origin = refl;
  acknowledged = ([], sym (append-nil _));
  stays_archived = λ h. refl;
}

pub acknowledge-Follows :
    (n : ScratchNote) (w : String)
    → Follows n (record n { acknowledged_by = n.acknowledged_by ++ w ∷ [] })
acknowledge-Follows n w = record {
  same_id = refl;
  same_workflow = refl;
  same_session = refl;
  same_timestamp = refl;
  same_origin = refl;
  acknowledged = (w ∷ [], refl);
  stays_archived = λ h. h;
}

-- The time limit that an update sets, if it sets one, is one that the validator takes.
abbrev pub IsChecked : Update → Type 0
IsChecked (sets_ttl v) = validate_ttl v ≡ true
IsChecked _ = Unit

with_update-ttl :
    (n : ScratchNote) (u : Update)
    → IsChecked u
    → validate_ttl n.ttl ≡ true
    → validate_ttl (with_update n u).ttl ≡ true
unfolding with_update
with_update-ttl n (sets_content v) c h = h
with_update-ttl n (sets_type v) c h = h
with_update-ttl n (sets_target_workflow v) c h = h
with_update-ttl n (sets_ttl v) c h = c
with_update-ttl n (sets_thread_ids v) c h = h
with_update-ttl n (sets_id v) c h = h
with_update-ttl n (sets_workflow_id v) c h = h
with_update-ttl n (sets_session_id v) c h = h
with_update-ttl n (sets_timestamp v) c h = h
with_update-ttl n (sets_epistemic_origin v) c h = h
with_update-ttl n (sets_lifecycle v) c h = h
with_update-ttl n (sets_acknowledged_by v) c h = h
with_update-ttl n (sets_other key) c h = h

pub with_updates-ttl :
    (n : ScratchNote) (us : List Update)
    → All IsChecked us
    → validate_ttl n.ttl ≡ true
    → validate_ttl (with_updates n us).ttl ≡ true
unfolding with_updates
with_updates-ttl n [] c h = h
with_updates-ttl n (u ∷ us) c h =
    with_updates-ttl (with_update n u) us c.1 (with_update-ttl n u c.0 h)
