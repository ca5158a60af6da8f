-- ===== src/Restartd/Settings.antt =====
-- svc.restartd/config.c: the record of the service when all settings of a file were given to `parseconfig`.
use mathlib.Core.Path.{subst}
use runit.Base.{
  ◌⊎◌, ◌≡◌, Bool, true, false, List, [], ◌∷◌, Option, some, if◌then◌else◌, arith, refl, ◌∙◌, same,
  same-eq, ap, sym, Bool-cases, inl, inr,
}
use runit.Restartd.Defs.{Kind, Service}
use runit.Restartd.Config.{Text, Key, key_name, service_section, matches, type_of, parseconfig}

-- A setting that the parser of the file finds.
pub record Setting : Type 0 where
  pub section : Text
  pub name : Text
  pub value : Text

-- One call of the handler for each setting, in the order of the file.
unfoldable pub configure : List Setting → Service → Service
unfolding parseconfig
configure [] s = s
configure (t ∷ ts) s = configure ts (parseconfig t.section t.name t.value s).1

-- The last value that the settings have for a key, or else the one before.
abbrev pub last_value : Key → List Setting → Option Text → Option Text
last_value k [] d = d
last_value k (t ∷ ts) d = last_value k ts (if matches t.section t.name k then some t.value else d)

-- The same for the type: settings with a value that is none are passed over.
abbrev pub last_type : List Setting → Kind → Kind
last_type [] d = d
last_type (t ∷ ts) d =
    last_type ts (if matches t.section t.name Key.type then type_of t.value d else d)

-- What one call makes of the configuration.
record Sets (s s' : Service) (section name value : Text) : Type 0 where
  type : s'.kind ≡ (if matches section name Key.type then type_of value s.kind else s.kind)
  file : s'.pid_file ≡ (if matches section name Key.pid_file then some value else s.pid_file)
  pre :
      s'.exec_start_pre
      ≡ (if matches section name Key.exec_start_pre then some value else s.exec_start_pre)
  start : s'.exec_start ≡ (if matches section name Key.exec_start then some value else s.exec_start)
  post :
      s'.exec_start_post
      ≡ (if matches section name Key.exec_start_post then some value else s.exec_start_post)
  stop :
      s'.exec_stop_post
      ≡ (if matches section name Key.exec_stop_post then some value else s.exec_stop_post)

-- A setting of a key.
on_key :
    (k : Key) (value : Text) (s : Service)
    → Sets s (parseconfig service_section (key_name k) value s).1 service_section (key_name k) value
unfolding parseconfig key_name same
on_key Key.type value s = record {
  type = refl;
  file = refl;
  pre = refl;
  start = refl;
  post = refl;
  stop = refl;
}
on_key Key.pid_file value s = record {
  type = refl;
  file = refl;
  pre = refl;
  start = refl;
  post = refl;
  stop = refl;
}
on_key Key.exec_start_pre value s = record {
  type = refl;
  file = refl;
  pre = refl;
  start = refl;
  post = refl;
  stop = refl;
}
on_key Key.exec_start value s = record {
  type = refl;
  file = refl;
  pre = refl;
  start = refl;
  post = refl;
  stop = refl;
}
on_key Key.exec_start_post value s = record {
  type = refl;
  file = refl;
  pre = refl;
  start = refl;
  post = refl;
  stop = refl;
}
on_key Key.exec_stop_post value s = record {
  type = refl;
  file = refl;
  pre = refl;
  start = refl;
  post = refl;
  stop = refl;
}

of_key :
    (k : Key) (section name value : Text) (s : Service)
    → matches section name k ≡ true
    → Sets s (parseconfig section name value s).1 section name value
of_key k section name value s m =
    let a : same section service_section ≡ true = ground (arith, m) in
    let b : same name (key_name k) ≡ true = ground (arith, m) in
    subst (λ u. Sets s (parseconfig u name value s).1 u name value)
      (sym (same-eq section service_section a))
      (subst (λ v. Sets s (parseconfig service_section v value s).1 service_section v value)
        (sym (same-eq name (key_name k) b)) (on_key k value s))

of_none :
    (section name value : Text) (s : Service)
    → ((k : Key) → matches section name k ≡ false)
    → Sets s (parseconfig section name value s).1 section name value
unfolding parseconfig
of_none section name value s h =
    rw
      (
        h Key.type,
        h Key.pid_file,
        h Key.exec_start_pre,
        h Key.exec_start,
        h Key.exec_start_post,
        h Key.exec_stop_post,
      )
      (record {
        type = rw (h Key.type) refl;
        file = rw (h Key.pid_file) refl;
        pre = rw (h Key.exec_start_pre) refl;
        start = rw (h Key.exec_start) refl;
        post = rw (h Key.exec_start_post) refl;
        stop = rw (h Key.exec_stop_post) refl;
      })

none_known :
    (f : Key → Bool)
    → f Key.type ≡ false
    → f Key.pid_file ≡ false
    → f Key.exec_start_pre ≡ false
    → f Key.exec_start ≡ false
    → f Key.exec_start_post ≡ false
    → f Key.exec_stop_post ≡ false
    → (k : Key) → f k ≡ false
none_known f a b c d e g Key.type = a
none_known f a b c d e g Key.pid_file = b
none_known f a b c d e g Key.exec_start_pre = c
none_known f a b c d e g Key.exec_start = d
none_known f a b c d e g Key.exec_start_post = e
none_known f a b c d e g Key.exec_stop_post = g

Known : (Key → Bool) → Type 0
Known f = ((k : Key) × (f k ≡ true)) ⊎ ((k : Key) → f k ≡ false)

known : (f : Key → Bool) → Known f
unfolding Known
known f =
    let d = λ (k : Key). Bool-cases (f k) in
    elim (d Key.type) [
      | inl y ↦ inl (Key.type, y)
      | inr a ↦ elim (d Key.pid_file) [
        | inl y ↦ inl (Key.pid_file, y)
        | inr b ↦ elim (d Key.exec_start_pre) [
          | inl y ↦ inl (Key.exec_start_pre, y)
          | inr c ↦ elim (d Key.exec_start) [
            | inl y ↦ inl (Key.exec_start, y)
            | inr e ↦ elim (d Key.exec_start_post) [
              | inl y ↦ inl (Key.exec_start_post, y)
              | inr g ↦ elim (d Key.exec_stop_post) [
                | inl y ↦ inl (Key.exec_stop_post, y)
                | inr h ↦ inr (none_known f a b c e g h)
              ]
            ]
          ]
        ]
      ]
    ]

parseconfig-Sets :
    (section name value : Text) (s : Service)
    → Sets s (parseconfig section name value s).1 section name value
unfolding Known
parseconfig-Sets section name value s = elim (known (matches section name)) [
  | inl (k, m) ↦ of_key k section name value s m
  | inr h ↦ of_none section name value s h
]

-- When all settings of a file were given to the handler, each command and the file of the process
-- number are the last value that the section Service has for its name, and what they were before
-- where it has none; the type is that of the last value that names a type.
pub configure_lem :
    (ts : List Setting) (s : Service)
    → ((configure ts s).kind ≡ last_type ts s.kind)
      × ((configure ts s).pid_file ≡ last_value Key.pid_file ts s.pid_file)
      × ((configure ts s).exec_start_pre ≡ last_value Key.exec_start_pre ts s.exec_start_pre)
      × ((configure ts s).exec_start ≡ last_value Key.exec_start ts s.exec_start)
      × ((configure ts s).exec_start_post ≡ last_value Key.exec_start_post ts s.exec_start_post)
      × ((configure ts s).exec_stop_post ≡ last_value Key.exec_stop_post ts s.exec_stop_post)
unfolding configure
configure_lem [] s = (refl, refl, refl, refl, refl, refl)
configure_lem (t ∷ ts) s =
    let k = parseconfig-Sets t.section t.name t.value s in
    let (a, b, c, d, e, f) = configure_lem ts (parseconfig t.section t.name t.value s).1 in
    (
      a ∙ ap (last_type ts) k.type,
      b ∙ ap (last_value Key.pid_file ts) k.file,
      c ∙ ap (last_value Key.exec_start_pre ts) k.pre,
      d ∙ ap (last_value Key.exec_start ts) k.start,
      e ∙ ap (last_value Key.exec_start_post ts) k.post,
      f ∙ ap (last_value Key.exec_stop_post ts) k.stop,
    )
