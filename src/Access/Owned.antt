-- ===== src/Access/Owned.antt =====
-- The get and set functions of the fields that own a container. `get_` hands the container over to
-- the caller and leaves NULL; a setter that takes a pointer to the caller's pointer takes the
-- container over, and its second result is what the caller's pointer then is. The last result of a
-- setter is what it destroys: the container that the field held, or NULL.
use zproto.Base.{Option, none}
use zproto.Czmq.{Czmq}
use zproto.Example.{Example}

module _ ⦃z : Czmq⦄ where
  unfoldable pub routing_id : Example z → Option z.ZFrame
  routing_id self = self.routing_id

  unfoldable pub set_routing_id : Example z → Option z.ZFrame → Example z × Option z.ZFrame
  set_routing_id self frame = (record self { routing_id = z.zframe_dup frame }, self.routing_id)

  unfoldable pub identifier : Example z → Option z.ZUuid
  identifier self = self.identifier

  unfoldable pub set_identifier : Example z → Option z.ZUuid → Example z × Option z.ZUuid
  set_identifier self uuid = (record self { identifier = z.zuuid_dup uuid }, self.identifier)

  unfoldable pub get_identifier : Example z → Option z.ZUuid × Example z
  get_identifier self = (self.identifier, record self { identifier = none })

  unfoldable pub aliases : Example z → Option z.ZList
  aliases self = self.aliases

  unfoldable pub get_aliases : Example z → Option z.ZList × Example z
  get_aliases self = (self.aliases, record self { aliases = none })

  unfoldable pub set_aliases :
      Example z → Option z.ZList → Example z × Option z.ZList × Option z.ZList
  set_aliases self pointer = (record self { aliases = pointer }, none, self.aliases)

  unfoldable pub headers : Example z → Option z.ZHash
  headers self = self.headers

  unfoldable pub get_headers : Example z → Option z.ZHash × Example z
  get_headers self = (self.headers, record self { headers = none })

  unfoldable pub set_headers :
      Example z → Option z.ZHash → Example z × Option z.ZHash × Option z.ZHash
  set_headers self pointer = (record self { headers = pointer }, none, self.headers)

  unfoldable pub public_key : Example z → Option z.ZChunk
  public_key self = self.public_key

  unfoldable pub get_public_key : Example z → Option z.ZChunk × Example z
  get_public_key self = (self.public_key, record self { public_key = none })

  unfoldable pub set_public_key :
      Example z → Option z.ZChunk → Example z × Option z.ZChunk × Option z.ZChunk
  set_public_key self pointer = (record self { public_key = pointer }, none, self.public_key)

  unfoldable pub address : Example z → Option z.ZFrame
  address self = self.address

  unfoldable pub get_address : Example z → Option z.ZFrame × Example z
  get_address self = (self.address, record self { address = none })

  unfoldable pub set_address :
      Example z → Option z.ZFrame → Example z × Option z.ZFrame × Option z.ZFrame
  set_address self pointer = (record self { address = pointer }, none, self.address)

  unfoldable pub content : Example z → Option z.ZMsg
  content self = self.content

  unfoldable pub get_content : Example z → Option z.ZMsg × Example z
  get_content self = (self.content, record self { content = none })

  unfoldable pub set_content : Example z → Option z.ZMsg → Example z × Option z.ZMsg × Option z.ZMsg
  set_content self pointer = (record self { content = pointer }, none, self.content)
