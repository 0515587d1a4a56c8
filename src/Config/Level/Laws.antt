-- ===== src/Config/Level/Laws.antt =====
-- UpdateLogLevel: the level that is read back, and what stays.
use warpbox.Base.{◌≡◌, refl, ap, subst, ◌∙◌, true, false, Option, none, some, Bool-cases, inl, inr}
use warpbox.Base.Text.{Text, codes, text_eq, text_eq_refl, text_eq_sound}
use warpbox.Base.Result.{ok}
use warpbox.Config.Level.{
  document, mapping, sequence, scalar, alias, Node, node, Nodes, nil, cons, kind_of, value_of,
  content_of, with_content, update_level_in_config, update_root, update_document, update_tree,
}

-- The value of the first pair with a key.
unfoldable pub lookup_node : Text → Nodes → Option Node
lookup_node key nil = none
lookup_node key (cons k nil) = none
lookup_node key (cons k (cons v rest)) = elim (text_eq (value_of k) key) [
  | true ↦ some v
  | false ↦ lookup_node key rest
]

abbrev pub value_in : Option Node → Option Text
value_in none = none
value_in (some v) = some (value_of v)

-- The node of the level in a mapping of the key `logging`.
abbrev pub level_of : Option Node → Option Node
level_of none = none
level_of (some (node mapping t v c ns)) = lookup_node (codes "level") ns
level_of (some other) = none

-- A scalar with the level as its value.
abbrev pub IsWord : Text → Option Node → Type 0
IsWord level none = ⊥
IsWord level (some v) = (kind_of v ≡ scalar) × (value_of v ≡ level)

-- Every key has a value.
abbrev pub IsPaired : Nodes → Type 0
IsPaired nil = Unit
IsPaired (cons k nil) = ⊥
IsPaired (cons k (cons v rest)) = IsPaired rest

-- The level, if there is one, is a scalar.
abbrev pub HasScalar : Nodes → Type 0
HasScalar ns = (v : Node) → lookup_node (codes "level") ns ≡ some v → kind_of v ≡ scalar

abbrev pub IsMapping : Node → Type 0
IsMapping (node mapping t v c ns) = IsPaired ns × HasScalar ns
IsMapping other = ⊥

same : (key : Text) → text_eq key key ≡ true
same key = text_eq_refl key

update_level_in_config_lem :
    (level : Text) (ns : Nodes)
    → IsPaired ns
    → HasScalar ns
    → IsWord level (lookup_node (codes "level") (update_level_in_config level ns).0)
unfolding update_level_in_config lookup_node text_eq
update_level_in_config_lem level nil h m = (refl, refl)
update_level_in_config_lem level (cons k nil) h m = absurd h
update_level_in_config_lem level (cons k (cons (node kd t v c ns) rest)) h m =
    elim (Bool-cases (text_eq (value_of k) (codes "level"))) [
      | inr other ↦
          rw (other, update_level_in_config)
            (rw (other, lookup_node)
              (update_level_in_config_lem level rest h (λ u e. m u (rw (other, lookup_node) e))))
      | inl found ↦ elim (Bool-cases (text_eq v level)) [
        | inl set ↦
            rw (found, set, update_level_in_config)
              (rw (found, lookup_node)
                (m (node kd t v c ns) (rw (found, lookup_node) refl), text_eq_sound v level set))
        | inr old ↦
            rw (found, old, update_level_in_config)
              (rw (found, lookup_node) (m (node kd t v c ns) (rw (found, lookup_node) refl), refl))
      ]
    ]

update_level_in_config-IsPaired :
    (level : Text) (ns : Nodes) → IsPaired ns → IsPaired (update_level_in_config level ns).0
unfolding update_level_in_config
update_level_in_config-IsPaired level nil h = tt
update_level_in_config-IsPaired level (cons k nil) h = absurd h
update_level_in_config-IsPaired level (cons k (cons v rest)) h =
    elim (Bool-cases (text_eq (value_of k) (codes "level"))) [
      | inr other ↦
          rw (other, update_level_in_config) (update_level_in_config-IsPaired level rest h)
      | inl found ↦ elim (Bool-cases (text_eq (value_of v) level)) [
        | inl set ↦ rw (found, set, update_level_in_config) h
        | inr old ↦ rw (found, old, update_level_in_config) h
      ]
    ]

-- Nothing is changed only if everything is the same.
level_unchanged :
    (level : Text) (ns : Nodes)
    → (update_level_in_config level ns).1 ≡ false
    → (update_level_in_config level ns).0 ≡ ns
unfolding update_level_in_config
level_unchanged level nil h = cc
level_unchanged level (cons k nil) h = cc
level_unchanged level (cons k (cons v rest)) h =
    elim (Bool-cases (text_eq (value_of k) (codes "level"))) [
      | inr other ↦
          rw (other, update_level_in_config)
            (ap (λ r. cons k (cons v r))
              (level_unchanged level rest (rw (other, update_level_in_config) at h)))
      | inl found ↦ elim (Bool-cases (text_eq (value_of v) level)) [
        | inl set ↦ rw (found, set, update_level_in_config) refl
        | inr old ↦ absurd (let no_change = rw (found, old, update_level_in_config) at h in cc)
      ]
    ]

with_content_same : (v : Node) (ns : Nodes) → ns ≡ content_of v → with_content ns v ≡ v
with_content_same (node k t v c ns) ns' e = ap (node k t v c) e

root_unchanged :
    (level : Text) (ns : Nodes) → (update_root level ns).1 ≡ false → (update_root level ns).0 ≡ ns
unfolding update_root
root_unchanged level nil h = cc
root_unchanged level (cons k nil) h = cc
root_unchanged level (cons k (cons v rest)) h =
    elim (Bool-cases (text_eq (value_of k) (codes "logging"))) [
      | inr other ↦
          rw (other, update_root)
            (ap (λ r. cons k (cons v r)) (root_unchanged level rest (rw (other, update_root) at h)))
      | inl found ↦
          rw (found, update_root)
            (ap (λ u. cons k (cons u rest))
              (with_content_same v (update_level_in_config level (content_of v)).0
                (level_unchanged level (content_of v) (rw (found, update_root) at h))))
    ]

-- The section of the logging, if there is one, is a mapping.
abbrev pub HasMapping : Nodes → Type 0
HasMapping ns = (v : Node) → lookup_node (codes "logging") ns ≡ some v → IsMapping v

mapping-level :
    (level : Text) (v : Node)
    → IsMapping v
    → IsWord level
        (level_of (some (with_content (update_level_in_config level (content_of v)).0 v)))
mapping-level level (node mapping t v c ns) (h, m) = update_level_in_config_lem level ns h m
mapping-level level (node document t v c ns) h = absurd h
mapping-level level (node sequence t v c ns) h = absurd h
mapping-level level (node scalar t v c ns) h = absurd h
mapping-level level (node alias t v c ns) h = absurd h

update_root-level :
    (level : Text) (ns : Nodes)
    → IsPaired ns
    → HasMapping ns
    → IsWord level (level_of (lookup_node (codes "logging") (update_root level ns).0))
unfolding update_root lookup_node text_eq
update_root-level level nil h m = (refl, refl)
update_root-level level (cons k nil) h m = absurd h
update_root-level level (cons k (cons v rest)) h m =
    elim (Bool-cases (text_eq (value_of k) (codes "logging"))) [
      | inr other ↦
          rw (other, update_root)
            (rw (other, lookup_node)
              (update_root-level level rest h (λ u e. m u (rw (other, lookup_node) e))))
      | inl found ↦
          rw (found, update_root)
            (rw (found, lookup_node) (mapping-level level v (m v (rw (found, lookup_node) refl))))
    ]

update_root-other :
    (level key : Text) (ns : Nodes)
    → IsPaired ns
    → text_eq (codes "logging") key ≡ false
    → lookup_node key (update_root level ns).0 ≡ lookup_node key ns
unfolding update_root lookup_node
update_root-other level key nil h differ = rw (differ, lookup_node) refl
update_root-other level key (cons k nil) h differ = absurd h
update_root-other level key (cons k (cons v rest)) h differ =
    elim (Bool-cases (text_eq (value_of k) (codes "logging"))) [
      | inr other ↦ elim (Bool-cases (text_eq (value_of k) key)) [
        | inl own ↦ rw (other, update_root) (rw (own, lookup_node) refl)
        | inr apart ↦
            rw (other, update_root)
              (rw (apart, lookup_node) (update_root-other level key rest h differ))
      ]
      | inl found ↦
          let apart : text_eq (value_of k) key ≡ false =
            ap (λ t. text_eq t key) (text_eq_sound (value_of k) (codes "logging") found) ∙ differ in
          rw (found, update_root) (rw (apart, lookup_node) refl)
    ]

-- The pairs of the mapping at the root of a document.
abbrev pub root_content : Node → Nodes
root_content (node document t v c (cons (node mapping t' v' c' ns) nil)) = ns
root_content other = nil

-- What UpdateLogLevel may meet: every key of the root has a value, and the section of the logging, if
-- there is one, is a mapping of such keys, with a scalar as its level, if it has one.
abbrev pub IsSettings : Node → Type 0
IsSettings doc = IsPaired (root_content doc) × HasMapping (root_content doc)

abbrev pub level_node : Node → Option Node
level_node doc = level_of (lookup_node (codes "logging") (root_content doc))

abbrev pub saved_level : Node → Option Text
saved_level doc = value_in (level_node doc)

pub word-saved : (level : Text) (o : Option Node) → IsWord level o → value_in o ≡ some level
word-saved level none h = absurd h
word-saved level (some v) h = ap some h.1

-- The tree that the file holds behind the call.
abbrev pub after : Node → Option Node → Node
after doc none = doc
after doc (some doc') = doc'

update_document-level :
    (level t v c : Text) (root : Node) (o : Option Node)
    → IsSettings (node document t v c (cons root nil))
    → update_document level (node document t v c (cons root nil)) root ≡ ok o
    → IsWord level (level_node (after (node document t v c (cons root nil)) o))
unfolding update_document
update_document-level level t v c (node mapping t' v' c' content) o (h, m) e =
    let found = update_root-level level content h m in
    elim (Bool-cases (update_root level content).1) [
      | inl changed ↦
          let doc' =
            node document t v c (cons (node mapping t' v' c' (update_root level content).0) nil) in
          let new : some doc' ≡ o = (let written = rw (update_document, changed) at e in cc) in
          rw (← new) found
      | inr kept ↦
          let old : none ≡ o = (let written = rw (update_document, kept) at e in cc) in
          rw (← old) (
            subst (λ ns. IsWord level (level_of (lookup_node (codes "logging") ns)))
              (root_unchanged level content kept) found)
    ]
update_document-level level t v c root o settings e = absurd (let refused = e in cc)

-- An accepted tree has the new level, whether or not it had to change.
pub update_tree-level :
    (level : Text) (doc : Node) (o : Option Node)
    → IsSettings doc
    → update_tree level doc ≡ ok o
    → IsWord level (level_node (after doc o))
unfolding update_tree
update_tree-level level (node document t v c (cons root nil)) o settings e =
    update_document-level level t v c root o settings e
update_tree-level level doc o s e = absurd (let refused = e in cc)
