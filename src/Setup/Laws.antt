-- ===== src/Setup/Laws.antt =====
-- iemnet_setup.c: what setting the library up leaves, and what it does when it is done again.
use mathlib.Core.List.{append_assoc, append-nil}
use pd_iemnet.Prelude.{◌≡◌, refl, ap, sym, ◌∙◌, true, List, [], ◌∷◌, ◌++◌, arith, All}
use pd_iemnet.Register.{Registry, iemnet_register}
use pd_iemnet.Register.Laws.{has, register_twice, register-one, register-taken}
use pd_iemnet.Setup.{
  Class, Setup, class_setup, iemnet_setup, tcpclient_class, tcpreceive_class, tcpsend_class,
  tcpserver_class, udpclient_class, udpreceive_class, udpsend_class, udpserver_class,
}

-- The classes of the library.
abbrev pub objects : List Class
objects =
    tcpclient_class ∷ tcpreceive_class ∷ tcpsend_class ∷ tcpserver_class ∷ udpclient_class
    ∷ udpreceive_class ∷ udpsend_class ∷ udpserver_class ∷ []

setup_all : Setup → List Class → Setup
setup_all s [] = s
setup_all s (c ∷ cs) = setup_all (class_setup s c) cs

class_setup-classes : (s : Setup) (c : Class) → (class_setup s c).classes ≡ s.classes ++ c ∷ []
unfolding class_setup
class_setup-classes s c = ground (arith, register-one s.registry c.name)

class_setup-registry :
    (s : Setup) (c : Class) → (class_setup s c).registry ≡ (iemnet_register s.registry c.name).1
unfolding class_setup
class_setup-registry s c = ground (arith, register-one s.registry c.name)

setup_all-classes : (s : Setup) (cs : List Class) → (setup_all s cs).classes ≡ s.classes ++ cs
unfolding setup_all
setup_all-classes s [] = sym (append-nil s.classes)
setup_all-classes s (c ∷ cs) =
    setup_all-classes (class_setup s c) cs
    ∙ ap (λ l. l ++ cs) (class_setup-classes s c)
    ∙ append_assoc s.classes (c ∷ []) cs

-- The names of the classes are registered.
abbrev pub Known : Registry → List Class → Type 0
Known r = All (λ c. has r.namelist c.name ≡ true)

setup_all-keeps :
    (s : Setup) (c : Class) (cs : List Class)
    → has s.registry.namelist c.name ≡ true
    → has (setup_all s cs).registry.namelist c.name ≡ true
unfolding setup_all
setup_all-keeps s c [] h = h
setup_all-keeps s c (d ∷ cs) h = setup_all-keeps (class_setup s d) c cs (
    ap (λ r. has r.namelist c.name) (class_setup-registry s d)
    ∙ (register_twice s.registry d.name c.name).1 h)

setup_all-Known : (s : Setup) (cs : List Class) → Known (setup_all s cs).registry cs
unfolding setup_all
setup_all-Known s [] = tt
setup_all-Known s (c ∷ cs) = (
  setup_all-keeps (class_setup s c) c cs (
      ap (λ r. has r.namelist c.name) (class_setup-registry s c)
      ∙ (register_twice s.registry c.name c.name).0),
  setup_all-Known (class_setup s c) cs,
)

setup_all-same :
    (s : Setup) (cs : List Class) → Known s.registry cs → (setup_all s cs).registry ≡ s.registry
unfolding setup_all
setup_all-same s [] k = refl
setup_all-same s (c ∷ cs) k =
    let same : (class_setup s c).registry ≡ s.registry =
      class_setup-registry s c ∙ register-taken s.registry c.name k.0 in
    setup_all-same (class_setup s c) cs (rw same k.1) ∙ same

-- Setting the library up registers the names of its eight objects and makes their classes in order,
-- whatever was registered before. Doing it again finds every name taken and leaves the list of names
-- as it is, but makes all classes a second time: `iemnet__register` never refuses a name.
pub setup_again :
    (s : Setup)
    → ((iemnet_setup s).classes ≡ s.classes ++ objects)
      × Known (iemnet_setup s).registry objects
      × ((iemnet_setup (iemnet_setup s)).registry ≡ (iemnet_setup s).registry)
      × ((iemnet_setup (iemnet_setup s)).classes ≡ s.classes ++ (objects ++ objects))
unfolding iemnet_setup setup_all
setup_again s =
    let once = setup_all-classes s objects in
    let known = setup_all-Known s objects in
    (
      once,
      known,
      setup_all-same (setup_all s objects) objects known,
      setup_all-classes (setup_all s objects) objects
          ∙ ap (λ l. l ++ objects) once
          ∙ append_assoc s.classes objects objects,
    )
