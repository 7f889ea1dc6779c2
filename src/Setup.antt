-- ===== src/Setup.antt =====
-- iemnet_setup.c and the `x_setup` of each object: registering the name of the object and making its
-- class, that is the table of the messages it understands.
pub mod Laws
use Prim.Native.String.{String}
use pd_iemnet.Prelude.{ℕ, List, [], ◌∷◌, ◌++◌, ◌==◌, if◌then◌else◌}
use pd_iemnet.Register.{Registry, iemnet_register}

-- The types of the arguments of a message.
pub data Argument : Type 0 where
  a_float a_deffloat a_symbol a_gimme : Argument

-- The methods of a class, each with the name of the C function that handles the message.
pub data Method : Type 0 where
  addmethod : (handler selector : String) → List Argument → Method
  addlist : (handler : String) → Method
  addbang : (handler : String) → Method

-- `DEBUGMETHOD`
abbrev pub debugmethod : Method
debugmethod = addmethod "iemnet_debuglevel" "debug" (a_float ∷ [])

pub record Class : Type 0 where
  pub name : String
  pub newmethod : String
  pub freemethod : String
  pub arguments : List Argument
  pub methods : List Method

-- The registered names, and the classes that Pd has been given, oldest first.
pub record Setup : Type 0 where
  pub registry : Registry
  pub classes : List Class

-- What every `x_setup` does: `if(!iemnet__register(objName)) return;`, then make the class.
unfoldable pub class_setup : Setup → Class → Setup
class_setup s c =
    let (registered, r) = iemnet_register s.registry c.name in
    if registered == 0
    then record s { registry = r }
    else record { registry = r; classes = s.classes ++ c ∷ [] }

abbrev pub tcpclient_class : Class
tcpclient_class = record {
  name = "tcpclient";
  newmethod = "tcpclient_new";
  freemethod = "tcpclient_free";
  arguments = a_deffloat ∷ [];
  methods =
      addmethod "tcpclient_connect" "connect" (a_symbol ∷ a_float ∷ [])
      ∷ addmethod "tcpclient_disconnect" "disconnect" []
      ∷ addmethod "tcpclient_serialize" "serialize" (a_float ∷ [])
      ∷ addmethod "tcpclient_timeout" "timeout" (a_float ∷ [])
      ∷ addmethod "tcpclient_send" "send" (a_gimme ∷ [])
      ∷ addlist "tcpclient_send"
      ∷ addbang "tcpclient_info"
      ∷ debugmethod
      ∷ [];
}

abbrev pub tcpclient_setup : Setup → Setup
tcpclient_setup s = class_setup s tcpclient_class

abbrev pub tcpreceive_class : Class
tcpreceive_class = record {
  name = "tcpreceive";
  newmethod = "tcpreceive_new";
  freemethod = "tcpreceive_free";
  arguments = a_deffloat ∷ [];
  methods =
      addmethod "tcpreceive_port" "port" (a_deffloat ∷ [])
      ∷ addmethod "tcpreceive_serialize" "serialize" (a_float ∷ [])
      ∷ debugmethod
      ∷ [];
}

abbrev pub tcpreceive_setup : Setup → Setup
tcpreceive_setup s = class_setup s tcpreceive_class

abbrev pub tcpsend_class : Class
tcpsend_class = record {
  name = "tcpsend";
  newmethod = "tcpsend_new";
  freemethod = "tcpsend_free";
  arguments = [];
  methods =
      addmethod "tcpsend_connect" "connect" (a_symbol ∷ a_float ∷ [])
      ∷ addmethod "tcpsend_disconnect" "disconnect" []
      ∷ addmethod "tcpsend_send" "send" (a_gimme ∷ [])
      ∷ addlist "tcpsend_send"
      ∷ addmethod "tcpsend_timeout" "timeout" (a_float ∷ [])
      ∷ debugmethod
      ∷ [];
}

abbrev pub tcpsend_setup : Setup → Setup
tcpsend_setup s = class_setup s tcpsend_class

abbrev pub tcpserver_class : Class
tcpserver_class = record {
  name = "tcpserver";
  newmethod = "tcpserver_new";
  freemethod = "tcpserver_free";
  arguments = a_deffloat ∷ [];
  methods =
      addmethod "tcpserver_disconnect_client" "disconnectclient" (a_deffloat ∷ [])
      ∷ addmethod "tcpserver_disconnect_socket" "disconnectsocket" (a_deffloat ∷ [])
      ∷ addmethod "tcpserver_disconnect_all" "disconnect" []
      ∷ addmethod "tcpserver_send_socket" "send" (a_gimme ∷ [])
      ∷ addmethod "tcpserver_send_client" "client" (a_gimme ∷ [])
      ∷ addmethod "tcpserver_broadcast" "broadcast" (a_gimme ∷ [])
      ∷ addmethod "tcpserver_defaulttarget" "target" (a_deffloat ∷ [])
      ∷ addmethod "tcpserver_targetsocket" "targetsocket" (a_deffloat ∷ [])
      ∷ addlist "tcpserver_defaultsend"
      ∷ addmethod "tcpserver_serialize" "serialize" (a_float ∷ [])
      ∷ addmethod "tcpserver_accept" "accept" (a_float ∷ [])
      ∷ addmethod "tcpserver_maxconnections" "maxconnections" (a_float ∷ [])
      ∷ addmethod "tcpserver_port" "port" (a_deffloat ∷ [])
      ∷ addbang "tcpserver_info"
      ∷ debugmethod
      ∷ [];
}

abbrev pub tcpserver_setup : Setup → Setup
tcpserver_setup s = class_setup s tcpserver_class

abbrev pub udpclient_class : Class
udpclient_class = record {
  name = "udpclient";
  newmethod = "udpclient_new";
  freemethod = "udpclient_free";
  arguments = a_deffloat ∷ [];
  methods =
      addmethod "udpclient_connect" "connect" (a_symbol ∷ a_float ∷ a_deffloat ∷ [])
      ∷ addmethod "udpclient_disconnect" "disconnect" []
      ∷ addmethod "udpclient_send" "send" (a_gimme ∷ [])
      ∷ addlist "udpclient_send"
      ∷ addbang "udpclient_info"
      ∷ debugmethod
      ∷ [];
}

abbrev pub udpclient_setup : Setup → Setup
udpclient_setup s = class_setup s udpclient_class

abbrev pub udpreceive_class : Class
udpreceive_class = record {
  name = "udpreceive";
  newmethod = "udpreceive_new";
  freemethod = "udpreceive_free";
  arguments = a_deffloat ∷ [];
  methods =
      addmethod "udpreceive_port" "port" (a_gimme ∷ [])
      ∷ addmethod "udpreceive_optionI" "reuseaddr" (a_gimme ∷ [])
      ∷ addmethod "udpreceive_optionI" "reuseport" (a_gimme ∷ [])
      ∷ debugmethod
      ∷ [];
}

abbrev pub udpreceive_setup : Setup → Setup
udpreceive_setup s = class_setup s udpreceive_class

abbrev pub udpsend_class : Class
udpsend_class = record {
  name = "udpsend";
  newmethod = "udpsend_new";
  freemethod = "udpsend_free";
  arguments = [];
  methods =
      addmethod "udpsend_connect" "connect" (a_symbol ∷ a_float ∷ [])
      ∷ addmethod "udpsend_disconnect" "disconnect" []
      ∷ addmethod "udpsend_send" "send" (a_gimme ∷ [])
      ∷ addlist "udpsend_send"
      ∷ debugmethod
      ∷ [];
}

abbrev pub udpsend_setup : Setup → Setup
udpsend_setup s = class_setup s udpsend_class

abbrev pub udpserver_class : Class
udpserver_class = record {
  name = "udpserver";
  newmethod = "udpserver_new";
  freemethod = "udpserver_free";
  arguments = a_deffloat ∷ [];
  methods =
      addmethod "udpserver_disconnect_client" "disconnectclient" (a_deffloat ∷ [])
      ∷ addmethod "udpserver_disconnect_all" "disconnect" []
      ∷ addmethod "udpserver_accept" "accept" (a_float ∷ [])
      ∷ addmethod "udpserver_maxconnections" "maxconnections" (a_float ∷ [])
      ∷ addmethod "udpserver_timeout" "timeout" (a_float ∷ [])
      ∷ addmethod "udpserver_send_client" "client" (a_gimme ∷ [])
      ∷ addmethod "udpserver_broadcast" "broadcast" (a_gimme ∷ [])
      ∷ addmethod "udpserver_defaultsend" "send" (a_gimme ∷ [])
      ∷ addlist "udpserver_defaultsend"
      ∷ addmethod "udpserver_defaulttarget" "target" (a_deffloat ∷ [])
      ∷ addmethod "udpserver_add_client" "addclient" (a_symbol ∷ a_float ∷ [])
      ∷ addmethod "udpserver_bind" "bind" (a_gimme ∷ [])
      ∷ addmethod "udpserver_port" "port" (a_deffloat ∷ [])
      ∷ addbang "udpserver_info"
      ∷ debugmethod
      ∷ [];
}

abbrev pub udpserver_setup : Setup → Setup
udpserver_setup s = class_setup s udpserver_class

unfoldable pub iemnet_setup : Setup → Setup
iemnet_setup s0 =
    let s1 = tcpclient_setup s0 in
    let s2 = tcpreceive_setup s1 in
    let s3 = tcpsend_setup s2 in
    let s4 = tcpserver_setup s3 in
    let s5 = udpclient_setup s4 in
    let s6 = udpreceive_setup s5 in let s7 = udpsend_setup s6 in udpserver_setup s7
