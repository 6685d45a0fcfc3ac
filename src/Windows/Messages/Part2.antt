-- ===== src/Windows/Messages/Part2.antt =====
-- Cases of the `switch` of `OutputWindowCallbackMacro`, LeftSupport/LeftSupport/LeftWindows.cpp.
use mathlib.Core.List.{List, [], ◌∷◌}
use left_my_codes.Windows.Messages.Defs.{Case, always, unless_simple}

abbrev pub cases_2 : List Case
cases_2 =
    always "BM_GETSTATE" "确定单选按钮或复选框的状态"
    ∷ always "BM_SETSTATE" "改变按钮的高亮状态"
    ∷ always "BM_SETSTYLE" "改变按钮的风格"
    ∷ always "BM_CLICK" "模拟用户点击按钮"
    ∷ always "BM_GETIMAGE" "获取与按钮相关联的图片句柄(图标或位图)"
    ∷ always "BM_SETIMAGE" "把按钮与某张图片相关联(图标或位图),注:按钮须有BS_ICON风格"
    ∷ unless_simple "WM_KEYFIRST" "用于WinCE系统,本消息在使用GetMessage和PeekMessage函数时,用于过滤键盘消息"
    ∷ unless_simple "WM_KEYUP" "当一个非系统按键被释放弹起时(<ALT>键没有被按下),会发送本消息给拥有键盘焦点的窗口"
    ∷ always "WM_CHAR" "按下某按键,并已发出WM_KEYDOWN、WM_KEYUP消息,本消息包含被按下的按键的字符码"
    ∷ always "WM_DEADCHAR"
        "\"死字符\"消息,当使用TranslateMessage函数翻译WM_KEYUP消息时,发送本消息给拥有键盘焦点的窗口,注:德语键盘上,有些按键只是给字符添加音标的,并不产生字符,故称\"死字符\""
    ∷ always "WM_SYSKEYDOWN" "当用户按住<ALT>键的同时又按下其它键时,发送本消息给拥有焦点的窗口"
    ∷ always "WM_SYSKEYUP" "当用户释放一个按键的同时<ALT>键还按着时,发送本消息给拥有焦点的窗口"
    ∷ always "WM_SYSCHAR" "当WM_SYSKEYDOWN消息被TranslateMessage函数翻译后,发送本消息给拥有焦点的窗口,注:<ALT>键被按下"
    ∷ always "WM_SYSDEADCHAR"
        "\"死字符\"消息,当使用TranslateMessage函数翻译WM_SYSKEYDOWN消息时,发送本消息给拥有键盘焦点的窗口,注:德语键盘上,有些按键只是给字符添加音标的,并不产生字符,故称\"死字符\""
    ∷ unless_simple "WM_KEYLAST" "用于WinCE系统,本消息在使用GetMessage和PeekMessage函数时,用于过滤键盘消息"
    ∷ always "WM_IME_STARTCOMPOSITION" "当用户开始输入编码时,系统立即发送该消息到IME中,IME打开编码窗口,注:输入法相关"
    ∷ always "WM_IME_ENDCOMPOSITION" "当编码结束时,IME发送本消息,用户程序可接受本消息,以便自己显示用户输入的编码,注:输入法相关"
    ∷ always "WM_IME_COMPOSITION" "当用户改变了编码状态时,发送本消息,应用程序可通过调用ImmGetCompositionString函数获取新的编码状态"
    ∷ always "WM_INITDIALOG" "在某对话框程序被显示前发送本消息给该对话框程序,通常用本消息对控件进行一些初始化工作和执行其它任务"
    ∷ always "WM_COMMAND" "用户选择一条菜单命令项或某控件发送一条通知消息给其父窗,或某快捷键被翻译时,本消息被发送"
    ∷ always "WM_SYSCOMMAND" "当用户选择一条系统菜单命令、用户最大化或最小化或还原或关闭时，窗口会收到本消息"
    ∷ always "WM_TIMER" "发生了定时器事件"
    ∷ always "WM_HSCROLL" "当窗口的标准水平滚动条产生一个滚动事件时,发送本消息给该窗口"
    ∷ always "WM_VSCROLL" "当窗口的标准垂直滚动条产生一个滚动事件时,发送本消息给该窗口"
    ∷ always "WM_INITMENU" "当一个菜单将被激活时发送本消息,它发生在用户点击了某菜单项或按下某菜单键。它允许程序在显示前更改菜单"
    ∷ always "WM_INITMENUPOPUP" "当一个下拉菜单或子菜单将被激活时发送本消息,它允许程序在它显示前更改菜单,却不更改全部菜单"
    ∷ always "WM_MENUSELECT" "当用户选择一条菜单项时,发送本消息给菜单的所有者(一般是窗口)"
    ∷ always "WM_MENUCHAR" "当菜单已被激活且用户按下了某菜单字符键(菜单字符键用括号括着、带下划线,不同于快捷键),发送本消息给菜单的所有者"
    ∷ always "WM_ENTERIDLE"
        "当一个模态对话框或菜单进入空闲状态时,发送本消息给它的所有者,一个模态对话框或菜单进入空闲状态就是在处理完一条或几条先前的消息后,没有消息在消息列队中等待"
    ∷ always "WM_MENURBUTTONUP"
        "本消息允许程序为菜单项提供一个感知上下文的菜单(即快捷菜单),要为菜单项显示一下上下文菜单,请使用TPM_RECURSE标识调用TrackPopupMenuEx函数"
    ∷ always "WM_MENUDRAG"
        "当用户拖动菜单项时,发送本消息给拖放菜单的拥有者,可让菜单支持拖拽,可使用OLE拖放传输协议启动拖放操作,注:菜单要具有MNS_DRAGDROP风格"
    ∷ always "WM_MENUGETOBJECT"
        "当鼠标光标进入或离开菜单项时,本消息发送给支持拖放的菜单的拥有者,相关结构体:MENUGETOBJECTINFO,注:菜单要具有MNS_DRAGDROP风格"
    ∷ always "WM_UNINITMENUPOPUP" "当一条下拉菜单或子菜单被销毁时,发送本消息"
    ∷ always "WM_MENUCOMMAND" "当用户在一个菜单上作出选择时,会发送本消息,菜单要具有MNS_NOTIFYBYPOS风格(在MENUINFO结构体中设置)"
    ∷ always "WM_CTLCOLORMSGBOX"
        "系统绘制消息框前发送本消息给消息框的所有者窗口,通过响应本消息,所有者窗口可通过使用给定的相关显示设备的句柄来设置消息框的文本和背景色"
    ∷ always "WM_CTLCOLOREDIT"
        "当一个编辑框控件将要被绘制时,发送本消息给其父窗;通过响应本消息,所有者窗口可通过使用给定的相关显示设备的句柄来设置编辑框的文本和背景色"
    ∷ always "WM_CTLCOLORLISTBOX"
        "当一个列表框控件将要被绘制前,发送本消息给其父窗;通过响应本消息,所有者窗口可通过使用给定的相关显示设备的句柄来设置列表框的文本和背景色"
    ∷ always "WM_CTLCOLORBTN" "本消息设置按钮的背景色"
    ∷ always "WM_CTLCOLORDLG" "设置对话框的背景色,通常是在WinnApp中使用SetDialogBkColor函数实现"
    ∷ always "WM_CTLCOLORSCROLLBAR" "设置滚动条的背景色"
    ∷ always "WM_CTLCOLORSTATIC" "设置一个静态控件的背景色"
    ∷ always "CB_GETEDITSEL" "用于取得组合框所包含编辑框子控件中当前被选中的字符串的起止位置,对应函数:GetEditSel"
    ∷ always "CB_LIMITTEXT" "用于限制组合框所包含编辑框子控件输入文本的长度"
    ∷ always "CB_SETEDITSEL" "用于选中组合框所包含编辑框子控件中的部分字符串,对应函数:GetEditSel"
    ∷ always "CB_ADDSTRING" "用于向组合框控件追加一个列表项(字符串)"
    ∷ always "CB_DELETESTRING" "用于删除组合框中指定的列表项(字符串)"
    ∷ always "CB_DIR" "用于向组合框控件所包含的列表框控件中添加一个文件名列表清单"
    ∷ always "CB_GETCOUNT" "用于返回组合框控件中列表项的总项数"
    ∷ always "CB_GETCURSEL" "用于返回当前被选择项的索引"
    ∷ always "CB_GETLBTEXT" "获取组合框控件中指定列表项的字符串"
    ∷ always "CB_GETLBTEXTLEN" "用于返回组合框控件中指定列表项的字符串的长度(不包括结束符0)"
    ∷ always "CB_INSERTSTRING" "在组合框控件所包含的列表框子控件中的指定位置插入字符串"
    ∷ always "CB_RESETCONTENT" "用于清除组合框控件所有列表项"
    ∷ always "CB_FINDSTRING" "在组合框控件中根据给定的字符串查找匹配字符串(忽略大小写)"
    ∷ always "CB_SELECTSTRING" "在组合框控件中设定与指定字符串相匹配的列表项为选中项"
    ∷ always "CB_SETCURSEL" "在组合框控件中设置指定的列表项为当前选择项"
    ∷ always "CB_SHOWDROPDOWN" "用于显示或关闭下拉式和下拉列表式组合框的列表框"
    ∷ always "CB_GETITEMDATA" "组合框控件每个列表项都有一个32位的附加数据,本消息用于返回指定列表项的附加数据"
    ∷ always "CB_SETITEMDATA" "用于更新组合框所包含的列表框所指定的列表项的32位附加数据"
    ∷ always "CB_GETDROPPEDCONTROLRECT" "用于取组合框中列表框的屏幕位置"
    ∷ always "CB_SETITEMHEIGHT" "指定组合框中列表项的显示高度(像素点)"
    ∷ always "CB_GETITEMHEIGHT" "用于返回指定列表项的高度(像素点)"
    ∷ always "CB_SETEXTENDEDUI" "指定下拉式或下拉列表式组合框是使用默认界面还是扩展界面"
    ∷ always "CB_GETEXTENDEDUI" "用于返回组合框是否存在扩展界面"
    ∷ always "CB_GETDROPPEDSTATE" "用于取组合框中列表框是否可见"
    ∷ always "CB_FINDSTRINGEXACT" "在组合框中查找字符串,忽略大小写,与CB_FINDSTRING不同,本消息必须整个字符串相同"
    ∷ always "CB_SETLOCALE" "设置组合框列表项当前用于排序的语言代码"
    ∷ always "CB_GETLOCALE" "获取组合框列表项当前用于排序的语言代码"
    ∷ always "CB_GETTOPINDEX" "获取组合框中列表框中第一个可见项的索引"
    ∷ always "CB_SETTOPINDEX" "用于将指定的组合框中列表项设置为列表框的第一个可见项"
    ∷ always "CB_GETHORIZONTALEXTENT" "用于返回组合框水平滚动的总宽度(像素点)(要具有水平滚动条)"
    ∷ always "CB_SETHORIZONTALEXTENT" "用于设定组合框中的列表框的宽度"
    ∷ always "CB_GETDROPPEDWIDTH" "取组合框中列表框的宽度(像素点)"
    ∷ always "CB_SETDROPPEDWIDTH" "用于设定组合框中的列表框的最大允许宽度"
    ∷ always "CB_INITSTORAGE" "只适用于Win95,当将要向组合框中列表框中加入大量表项时,本消息将预先分配一块内存,以免大量添加表项多次分配内存,从而加快程序运行速度"
    ∷ always "CB_MSGMAX"
        "该消息还具有三个消息值:0x0162,0x0163,0x0165,消息含义不明,搜索了整个Visual Studio 6的目录也只有其定义,却未见其使用的相关代码"
    ∷ always "CBN_ERRSPACE" "通知父窗(通过WM_COMMAND获知),组合框内存不足"
    ∷ always "CBN_KILLFOCUS" "通知父窗(通过WM_COMMAND获知),组合框失去输入焦点"
    ∷ always "CBN_SELENDOK" "通知父窗(通过WM_COMMAND获知),用户对组合框的选择是合法的"
    ∷ always "LB_ADDSTRING" "向列表框中添加字符串"
    ∷ always "LB_INSERTSTRING" "向列表框中插入一个条目数据或字符串。不像LB_ADDSTRING消息,该消息不会激活LBS_SORT样式来对条目进行排序"
    ∷ always "LB_DELETESTRING" "删除列表框中的一个字符串"
    ∷ always "LB_SELITEMRANGEEX" "在多选状态下的列表框中选择一个或多个连续的条目"
    ∷ always "LB_RESETCONTENT" "清除列表框中所有列表项"
    ∷ always "LB_SETSEL" "在多选状态下的列表框中选择一个字符串"
    ∷ always "LB_SETCURSEL" "在列表框中选择一个字符串,并将其所在的条目滚动到视野内,并高亮新选中的字符串"
    ∷ always "LB_GETSEL" "获得列表框中一个条目的选择状态"
    ∷ always "LB_GETCURSEL" "获得列表框中当前被选条目的索引。仅在单选状态的列表框有效"
    ∷ always "LB_GETTEXT" "从列表框中获得一个字符串"
    ∷ always "LB_GETTEXTLEN" "获得一个列表框中字符串的长度"
    ∷ always "LB_GETCOUNT" "获得列表框中条目的数量"
    ∷ always "LB_SELECTSTRING" "仅适用于单选择列表框,设定与指定字符串相匹配的列表项为选中项,会滚动列表框以使选择项可见"
    ∷ always "LB_DIR" "在列表框中列出文件名"
    ∷ always "LB_GETTOPINDEX" "返回列表框中第一个可见项的索引"
    ∷ always "LB_FINDSTRING" "在列表框中查找匹配字符串(忽略大小写)"
    ∷ always "LB_GETSELCOUNT" "仅用于多重选择列表框,本消息用于返回选择项的数目"
    ∷ always "LB_GETSELITEMS" "仅用于多重选择列表框,本消息用于获得选中项的数目及位置"
    ∷ always "LB_SETTABSTOPS" "设置列表框的光标(输入焦点)站数及索引顺序表"
    ∷ always "LB_GETHORIZONTALEXTENT" "返回列表框的可滚动的宽度(像素点)"
    ∷ always "LB_SETHORIZONTALEXTENT" "本消息设置列表框的滚动宽度"
    ∷ always "LB_SETCOLUMNWIDTH" "为列表框指定列数"
    ∷ always "LB_ADDFILE" "为列表框增加文件名"
    ∷ always "LB_SETTOPINDEX" "用于列表框将中指定的列表项设置为列表框的第一个可见项,会将列表框滚动到合适的位置"
    ∷ always "LB_GETITEMRECT" "用于列表框中获得列表项的客户区的RECT"
    ∷ always "LB_GETITEMDATA" "列表框中每个列表项都有个32位附加数据,本消息用于返回指定列表项的附加数据"
    ∷ always "LB_SETITEMDATA" "用于更新列表框中指定列表项的32位附加数据"
    ∷ always "LB_SELITEMRANGE" "仅用于多重选择列表框,用来使指定范围内的列表项选中或落选"
    ∷ always "LB_SETANCHORINDEX" "用于列表框中设置鼠标最后选中的表项成指定表项"
    ∷ always "LB_GETANCHORINDEX" "用于列表框中鼠标最后选中的项的索引"
    ∷ always "LB_SETCARETINDEX" "用于列表框中设置键盘输入焦点到指定表项"
    ∷ always "LB_GETCARETINDEX" "用于列表框中返回具有矩形焦点的项目索引"
    ∷ always "LB_SETITEMHEIGHT" "用于列表框中指定列表项显示高度"
    ∷ always "LB_GETITEMHEIGHT" "用于列表框中返回列表框中某一项的高度(像素点)"
    ∷ always "LB_FINDSTRINGEXACT" "用于列表框中查找字符串(忽略大小写),与LB_FINDSTRING不同,本消息必须整个字符串相同"
    ∷ always "LB_SETLOCALE"
        "用于列表框中设置列表项当前用于排序的语言代码,当用户使用LB_ADDSTRING向组合框中的列表框中添加记录,并使用LBS_SORT风格进行重新排序时,必须使用该语言代码"
    ∷ always "LB_GETLOCALE"
        "用于列表框中获取列表项当前用于排序的语言代码,当用户使用LB_ADDSTRING向组合框中的列表框中添加记录,并使用LBS_SORT风格进行重新排序时,必须使用该语言代码"
    ∷ always "LB_SETCOUNT" "用于列表框中设置表项数目"
    ∷ always "LB_INITSTORAGE" "只适用于Win95版本,当将要向列表框中加入大量表项时,本消息将预先分配一块内存,以免在以后的操作中一次次分配内存"
    ∷ always "LB_ITEMFROMPOINT" "用于列表框中获得与指定点最近的项目索引"
    ∷ always "LB_MSGMAX"
        "该消息还具有三个消息值:0x01B0,0x01B1,0x01B3,,消息含义不明,搜索了整个Visual Studio 6的目录也只有其定义,却未见其使用的相关代码"
    ∷ always "LBN_ERRSPACE" "通知父窗(通过WM_COMMAND获知),列表框内存不够"
    ∷ unless_simple "WM_MOUSEMOVE" "移动鼠标"
    ∷ always "WM_LBUTTONDOWN" "按下鼠标左键"
    ∷ always "WM_LBUTTONUP" "释放鼠标左键"
    ∷ always "WM_LBUTTONDBLCLK" "双击鼠标左键"
    ∷ always "WM_RBUTTONDOWN" "按下鼠标右键"
    ∷ always "WM_RBUTTONUP" "释放鼠标右键"
    ∷ always "WM_RBUTTONDBLCLK" "双击鼠标右键"
    ∷ always "WM_MBUTTONDOWN" "按下鼠标中键"
    ∷ always "WM_MBUTTONUP" "释放鼠标中键"
    ∷ []
